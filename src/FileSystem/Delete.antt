-- ===== src/FileSystem/Delete.antt =====
-- filesystem.cpp, execute_request for FS_DELETE.
use os_from_scratch.Common.{
  ℕ, zero, suc, ◌+◌, ◌-◌, Bool, true, not, ◌&&◌, ◌||◌, List, [], ◌∷◌, ◌++◌, Option, none, some,
  Bytes, ◌==◌, ltb, if◌then◌else◌, set, get_or, length,
}
use os_from_scratch.Disk.{Device, Direntry, Inode, used, names_file, owned_by, Store}
use os_from_scratch.Request.{FilePath}
use os_from_scratch.FileSystem.Traverse.{InodeInfo, traverse_fs, read_inode, read_direntries}
use os_from_scratch.FileSystem.Blocks.{Outcome}
use os_from_scratch.FileSystem.Create.{back, pop_back}

-- Where the target's entry stands: the index of its direntries block in the parent, that block,
-- the entry's index in it, the target's inode block, and a copy of the direntries.
pub record Found : Type 0 where
  pub position : ℕ
  pub block : ℕ
  pub index : ℕ
  pub target : ℕ
  pub direntries : List Direntry

-- The loop over the direntries of one block, from index `j` on.
unfoldable pub find_slot : Bytes → ℕ → List Direntry → Option (ℕ × ℕ)
find_slot name j [] = none
find_slot name j (e ∷ es) =
    let rest = find_slot name (j + 1) es in
    if names_file name e then some (j, e.inode_block) else rest

-- `can_delete_direntries`: nothing but the target in the block.
unfoldable pub only_target : ℕ → List Direntry → Bool
only_target target [] = true
only_target target (e ∷ es) =
    (e.inode_block == 0 || e.inode_block == target) && only_target target es

unfoldable pub clear_entry : List Direntry → ℕ → List Direntry
clear_entry [] j = []
clear_entry (e ∷ es) zero = record e { inode_block = 0 } ∷ es
clear_entry (e ∷ es) (suc j) = e ∷ clear_entry es j

-- `for (; i < size - 1; ++i) blocks[i] = blocks[i + 1]`, with the rounds left first.
unfoldable pub shift : ℕ → ℕ → List ℕ → List ℕ
shift zero i bs = bs
shift (suc n) i bs = shift n (i + 1) (set bs i (get_or bs (i + 1) 0))

-- The parent without the direntries block at a position.
unfoldable pub drop_block : Inode → ℕ → Inode
unfolding shift
drop_block inode position = record inode {
  blocks = shift (inode.size - 1 - position) position inode.blocks;
  size = inode.size - 1;
}

-- The blocks that a deleted inode gives back besides its own.
unfoldable pub data_blocks : Inode → List ℕ
data_blocks inode = if inode.type == b'f' then used inode else []

module _ (dev : Device) where
  open dev use {Disk, disk_writeblock, of_inode, of_direntries}

  -- The loop over the parent's blocks, from position `i` on.
  unfoldable pub find_found : Disk → Bytes → ℕ → List ℕ → Option Found
  find_found d name i [] = none
  find_found d name i (b ∷ bs) =
      let es = read_direntries dev d b in
      elim (find_slot name 0 es) [
        | none ↦ find_found d name (i + 1) bs
        | some (j, t) ↦
            some (record { position = i; block = b; index = j; target = t; direntries = es })
      ]

  -- The entry is taken out of the parent, and its whole block with it if nothing else is there.
  unfoldable pub unlink : Store Disk → InodeInfo → Found → Store Disk
  unlink s parent found =
      if only_target found.target found.direntries
      then record {
        disk =
            disk_writeblock s.disk parent.block (of_inode (drop_block parent.inode found.position));
        free = s.free ++ found.block ∷ [];
      }
      else record s {
        disk =
            disk_writeblock s.disk found.block
              (of_direntries (clear_entry found.direntries found.index));
      }

  -- The target's blocks go to the end of the free list, its inode last.
  unfoldable pub release : Store Disk → Inode → ℕ → Store Disk
  release s inode target = record s { free = (s.free ++ data_blocks inode) ++ target ∷ [] }

  -- The checks on the target: its owner, and that a directory is empty.
  unfoldable pub delete_found : Store Disk → InodeInfo → Found → Bytes → Store Disk × Outcome dev
  unfolding unlink release
  delete_found s parent found username =
      let inode = read_inode dev s.disk found.target in
      if not (owned_by username inode)
      then (s, none)
      else if inode.type == b'd' && ltb 0 inode.size
      then (s, none)
      else (release (unlink s parent found) inode found.target, some none)

  unfoldable pub delete_in : Store Disk → InodeInfo → Bytes → Bytes → Store Disk × Outcome dev
  unfolding delete_found
  delete_in s parent name username =
      if parent.inode.size == 0
      then (s, none)
      else if parent.inode.type == b'f'
      then (s, none)
      else elim (find_found s.disk name 0 (used parent.inode)) [
        | none ↦ (s, none)
        | some found ↦ delete_found s parent found username
      ]

  unfoldable pub delete : Store Disk → Bytes → FilePath → Store Disk × Outcome dev
  unfolding delete_in
  delete s username [] = (s, none)
  delete s username (name ∷ path) =
      if length s.free == 4095
      then (s, none)
      else elim (traverse_fs dev s.disk (pop_back (name ∷ path)) username) [
        | none ↦ (s, none)
        | some parent ↦ delete_in s parent (back (name ∷ path)) username
      ]
