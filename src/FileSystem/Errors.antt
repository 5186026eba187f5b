-- ===== src/FileSystem/Errors.antt =====
-- filesystem.cpp: the requests that return an error.
use os_from_scratch.Common.{
  ℕ, ◌≡◌, refl, List, [], ◌∷◌, Option, none, some, Bytes, arith, inl, inr, Option-cases,
}
use os_from_scratch.Disk.{Device, Inode, Store, used}
use os_from_scratch.Request.{Request, FilePath, fs_readblock, fs_writeblock, fs_create, fs_delete}
use os_from_scratch.FileSystem.Traverse.{InodeInfo, traverse_fs}
use os_from_scratch.FileSystem.Blocks.{Outcome, append_block, write_file, write_block}
use os_from_scratch.FileSystem.Create.{
  Spot, place, allocate_and_place, create_in, create_from, create, scan_blocks, new_inode, back,
  pop_back,
}
use os_from_scratch.FileSystem.Delete.{delete_in, delete}
use os_from_scratch.FileSystem.{execute_request}

module _ (dev : Device) where
  open dev use {Block, Disk}

  -- The outcome is a success, or the store is the old one.
  abbrev KeepsOnError : Store Disk → Store Disk × Outcome dev → Type 0
  KeepsOnError s r = r.1 ≡ none → r.0 ≡ s

  append_block_error :
      (s : Store Disk) (info : InodeInfo) (block : ℕ) (x : Block) (free : List ℕ)
      → KeepsOnError s (append_block dev s info block x free)
  unfolding append_block
  append_block_error s info block x [] h = refl
  append_block_error s info block x (b ∷ free) h = cc

  write_file_error :
      (s : Store Disk) (info : InodeInfo) (block : ℕ) (x : Block)
      → KeepsOnError s (write_file dev s info block x)
  unfolding write_file
  write_file_error s info block x h = ground (arith, append_block_error s info block x s.free)

  write_block_error :
      (s : Store Disk) (username : Bytes) (path : FilePath) (block : ℕ) (x : Block)
      → KeepsOnError s (write_block dev s username path block x)
  unfolding write_block
  write_block_error s username [] block x h = refl
  write_block_error s username (name ∷ path) block x h =
      elim (Option-cases (traverse_fs dev s.disk (name ∷ path) username)) [
        | inl e ↦ ground arith
        | inr (info, e) ↦ ground (arith, write_file_error s info block x)
      ]

  -- `s` has the rest of the free list once its first block is taken.
  place_error :
      (s : Store Disk) (dir : InodeInfo) (spot : Option Spot) (b : ℕ) (inode : Inode) (name : Bytes)
      → KeepsOnError (record s { free = b ∷ s.free }) (place dev s dir spot b inode name)
  unfolding place
  place_error s dir (some spot) b inode name h = cc
  place_error s dir none b inode name h = ground arith

  allocate_error :
      (s : Store Disk) (dir : InodeInfo) (spot : Option Spot) (inode : Inode) (name : Bytes)
      (free : List ℕ)
      → s.free ≡ free
      → KeepsOnError s (allocate_and_place dev s dir spot inode name free)
  unfolding allocate_and_place
  allocate_error s dir spot inode name [] e h = refl
  allocate_error s dir spot inode name (b ∷ free) e h =
      ground (arith, place_error (record s { free = free }) dir spot b inode name)

  create_in_error :
      (s : Store Disk) (dir : InodeInfo) (inode : Inode) (name : Bytes)
      → KeepsOnError s (create_in dev s dir inode name)
  unfolding create_in
  create_in_error s dir inode name h =
      elim (Option-cases (scan_blocks dev s.disk name (used dir.inode) none)) [
        | inl e ↦ ground arith
        | inr (spot, e) ↦ ground (arith, allocate_error s dir spot inode name s.free refl)
      ]

  create_from_error :
      (s : Store Disk) (junk : Inode) (username : Bytes) (path : FilePath) (type : ℕ)
      (free : List ℕ)
      → KeepsOnError s (create_from dev s junk username path type free)
  unfolding create_from
  create_from_error s junk username path type [] h = refl
  create_from_error s junk username path type (_ ∷ _) h =
      elim (Option-cases (traverse_fs dev s.disk (pop_back path) username)) [
        | inl e ↦ ground arith
        | inr (dir, e) ↦
            ground (arith, create_in_error s dir (new_inode junk type username) (back path))
      ]

  create_error :
      (s : Store Disk) (junk : Inode) (username : Bytes) (path : FilePath) (type : ℕ)
      → KeepsOnError s (create dev s junk username path type)
  unfolding create
  create_error s junk username [] type h = refl
  create_error s junk username (name ∷ path) type h =
      create_from_error s junk username (name ∷ path) type s.free h

  delete_in_error :
      (s : Store Disk) (parent : InodeInfo) (name username : Bytes)
      → KeepsOnError s (delete_in dev s parent name username)
  unfolding delete_in
  delete_in_error s parent name username h = ground arith

  delete_error :
      (s : Store Disk) (username : Bytes) (path : FilePath)
      → KeepsOnError s (delete dev s username path)
  unfolding delete
  delete_error s username [] h = refl
  delete_error s username (name ∷ path) h =
      elim (Option-cases (traverse_fs dev s.disk (pop_back (name ∷ path)) username)) [
        | inl e ↦ ground arith
        | inr (parent, e) ↦ ground (arith, delete_in_error s parent (back (name ∷ path)) username)
      ]

  -- A request that returns an error leaves the disk and the list of free blocks as they were.
  pub execute_request_error :
      (s : Store Disk) (junk : Inode) (r : Request Block)
      → (execute_request dev s junk r).1 ≡ none
      → (execute_request dev s junk r).0 ≡ s
  unfolding execute_request
  execute_request_error s junk (fs_readblock username path block) h = refl
  execute_request_error s junk (fs_writeblock username path block x) h =
      write_block_error s username path block x h
  execute_request_error s junk (fs_create username path type) h =
      create_error s junk username path type h
  execute_request_error s junk (fs_delete username path) h = delete_error s username path h
