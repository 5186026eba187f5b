-- ===== src/FileSystem/Traverse.antt =====
-- filesystem.cpp, traverse_fs: from the root along a path to an inode.
use os_from_scratch.Common.{
  ℕ, Bool, true, false, not, ◌&&◌, List, [], ◌∷◌, Option, none, some, Bytes, ◌==◌, if◌then◌else◌,
}
use os_from_scratch.Disk.{Device, Direntry, Inode, used, names_file, owned_by}
use os_from_scratch.Request.{FilePath}

-- struct inode_lock_info, less the lock.
pub record InodeInfo : Type 0 where
  pub inode : Inode
  pub block : ℕ

-- The loop over one block's direntries: the inode block of the first entry of that name.
unfoldable pub find_entry : Bytes → List Direntry → Option ℕ
find_entry name [] = none
find_entry name (e ∷ es) =
    let rest = find_entry name es in if names_file name e then some e.inode_block else rest

module _ (dev : Device) where
  open dev use {Disk, disk_readblock, inode_of, direntries_of}

  abbrev pub read_inode : Disk → ℕ → Inode
  read_inode d b = inode_of (disk_readblock d b)

  abbrev pub read_direntries : Disk → ℕ → List Direntry
  read_direntries d b = direntries_of (disk_readblock d b)

  -- The loop over the directory's blocks.
  unfoldable pub find_name : Disk → Bytes → List ℕ → Option ℕ
  find_name d name [] = none
  find_name d name (b ∷ bs) = elim (find_entry name (read_direntries d b)) [
    | none ↦ find_name d name bs
    | some t ↦ some t
  ]

  -- The loop over the path. `at_root` is the test `i == 0`: anyone may pass through the root.
  unfoldable pub walk : Disk → Bytes → Bool → ℕ → FilePath → Option InodeInfo
  walk d owner at_root b [] =
      if owned_by owner (read_inode d b)
      then some (record { inode = read_inode d b; block = b })
      else none
  walk d owner at_root b (name ∷ path) =
      if (read_inode d b).type == b'f'
      then none
      else if not (owned_by owner (read_inode d b)) && not at_root
      then none
      else elim (find_name d name (used (read_inode d b))) [
        | none ↦ none
        | some t ↦ walk d owner false t path
      ]

  unfoldable pub traverse_fs : Disk → FilePath → Bytes → Option InodeInfo
  traverse_fs d [] owner = some (record { inode = read_inode d 0; block = 0 })
  traverse_fs d (name ∷ path) owner = walk d owner true 0 (name ∷ path)
