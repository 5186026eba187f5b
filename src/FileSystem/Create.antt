-- ===== src/FileSystem/Create.antt =====
-- filesystem.cpp, execute_request for FS_CREATE.
use os_from_scratch.Common.{
  ℕ, zero, suc, ◌+◌, Bool, true, false, List, [], ◌∷◌, Option, none, some, Bytes, ◌==◌,
  if◌then◌else◌, set, replicate, strcpy,
}
use os_from_scratch.Params.{fs_maxfileblocks, fs_maxfilename, fs_direntries}
use os_from_scratch.Disk.{Device, Direntry, Inode, used, names_file, Store}
use os_from_scratch.Request.{FilePath}
use os_from_scratch.FileSystem.Traverse.{InodeInfo, traverse_fs, read_direntries}
use os_from_scratch.FileSystem.Blocks.{Outcome}

-- path.back(), and the path after path.pop_back().
unfoldable pub back : FilePath → Bytes
back [] = []
back (name ∷ []) = name
back (name ∷ next ∷ path) = back (next ∷ path)

unfoldable pub pop_back : FilePath → FilePath
pop_back [] = []
pop_back (name ∷ []) = []
pop_back (name ∷ next ∷ path) = name ∷ pop_back (next ∷ path)

-- The first unused direntry: its block, its index there, and a copy of the block's direntries.
pub record Spot : Type 0 where
  pub block : ℕ
  pub index : ℕ
  pub direntries : List Direntry

abbrev pub first_spot : Option Spot → Bool → Spot → Option Spot
first_spot none true spot = some spot
first_spot none false spot = none
first_spot (some old) _ spot = some old

-- The loop over the direntries `es` of one block from index `j` on. The outer `none` is the early
-- return of an error because the file exists; `acc` is the spot found so far.
unfoldable pub scan_entries :
    Bytes → ℕ → List Direntry → ℕ → List Direntry → Option Spot → Option (Option Spot)
scan_entries name block all j [] acc = some acc
scan_entries name block all j (e ∷ es) acc =
    let rest = scan_entries name block all (j + 1) es (
      first_spot acc (e.inode_block == 0)
        (record { block = block; index = j; direntries = all })) in
    if names_file name e then none else rest

-- The direntry at an index gets a new inode block and name.
unfoldable pub fill_entry : List Direntry → ℕ → ℕ → Bytes → List Direntry
fill_entry [] j b name = []
fill_entry (e ∷ es) zero b name = record { name = strcpy e.name name; inode_block = b } ∷ es
fill_entry (e ∷ es) (suc j) b name = e ∷ fill_entry es j b name

-- `std::array<fs_direntry, FS_DIRENTRIES> new_direntries {}`: every byte is 0.
abbrev pub zero_entry : Direntry
zero_entry = record { name = replicate (suc fs_maxfilename) 0; inode_block = 0 }

unfoldable pub new_direntries : List Direntry
new_direntries = replicate fs_direntries zero_entry

-- `new_inode`: `junk` is what the uninitialised object holds.
unfoldable pub new_inode : Inode → ℕ → Bytes → Inode
new_inode junk type username = record junk {
  size = 0;
  type = type;
  owner = strcpy junk.owner username;
}

module _ (dev : Device) where
  open dev use {Disk, disk_writeblock, of_inode, of_direntries}

  -- The loop over the directory's blocks.
  unfoldable pub scan_blocks : Disk → Bytes → List ℕ → Option Spot → Option (Option Spot)
  scan_blocks d name [] acc = some acc
  scan_blocks d name (b ∷ bs) acc =
      let es = read_direntries dev d b in
      elim (scan_entries name b es 0 es acc) [
        | none ↦ none
        | some acc' ↦ scan_blocks d name bs acc'
      ]

  -- An opening was found: the entry is filled in, after the inode is written to block `b`.
  unfoldable pub use_spot : Store Disk → Spot → ℕ → Inode → Bytes → Store Disk
  use_spot s spot b inode name =
      let d = disk_writeblock s.disk b (of_inode inode) in
      let es = fill_entry spot.direntries spot.index b name in
      record s { disk = disk_writeblock d spot.block (of_direntries es) }

  -- No opening: a block of direntries is allocated from `free`, unless the directory is full.
  unfoldable pub extend_dir :
      Store Disk → InodeInfo → ℕ → Inode → Bytes → List ℕ → Store Disk × Outcome dev
  extend_dir s dir b inode name [] = (record s { free = b ∷ s.free }, none)
  extend_dir s dir b inode name (m ∷ free) =
      let d = disk_writeblock s.disk m (of_direntries (fill_entry new_direntries 0 b name)) in
      let d' = disk_writeblock d b (of_inode inode) in
      let dir' = record dir.inode {
        blocks = set dir.inode.blocks dir.inode.size m;
        size = dir.inode.size + 1;
      } in
      (record { disk = disk_writeblock d' dir.block (of_inode dir'); free = free }, some none)

  -- The request once the parent is found and searched, and block `b` is allocated for the inode.
  unfoldable pub place :
      Store Disk → InodeInfo → Option Spot → ℕ → Inode → Bytes → Store Disk × Outcome dev
  unfolding use_spot extend_dir
  place s dir (some spot) b inode name = (use_spot s spot b inode name, some none)
  place s dir none b inode name =
      if dir.inode.size == fs_maxfileblocks
      then (record s { free = b ∷ s.free }, none)
      else extend_dir s dir b inode name s.free

  unfoldable pub allocate_and_place :
      Store Disk → InodeInfo → Option Spot → Inode → Bytes → List ℕ → Store Disk × Outcome dev
  unfolding place
  allocate_and_place s dir spot inode name [] = (s, none)
  allocate_and_place s dir spot inode name (b ∷ free) =
      place (record s { free = free }) dir spot b inode name

  unfoldable pub create_in : Store Disk → InodeInfo → Inode → Bytes → Store Disk × Outcome dev
  unfolding allocate_and_place
  create_in s dir inode name =
      if dir.inode.type == b'f'
      then (s, none)
      else elim (scan_blocks s.disk name (used dir.inode) none) [
        | none ↦ (s, none)
        | some spot ↦ allocate_and_place s dir spot inode name s.free
      ]

  unfoldable pub create_from :
      Store Disk → Inode → Bytes → FilePath → ℕ → List ℕ → Store Disk × Outcome dev
  create_from s junk username path type [] = (s, none)
  create_from s junk username path type (_ ∷ _) =
      elim (traverse_fs dev s.disk (pop_back path) username) [
        | none ↦ (s, none)
        | some dir ↦ create_in s dir (new_inode junk type username) (back path)
      ]

  -- The first test of the free list comes before the traversal.
  unfoldable pub create : Store Disk → Inode → Bytes → FilePath → ℕ → Store Disk × Outcome dev
  unfolding create_from create_in
  create s junk username [] type = (s, none)
  create s junk username (name ∷ path) type = create_from s junk username (name ∷ path) type s.free
