-- ===== src/FileSystem/Blocks.antt =====
-- filesystem.cpp, execute_request for FS_READBLOCK and FS_WRITEBLOCK.
use os_from_scratch.Common.{
  ℕ, ◌+◌, List, [], ◌∷◌, Option, none, some, Bytes, ltb, leb, ◌==◌, if◌then◌else◌, set, get_or,
}
use os_from_scratch.Params.{fs_maxfileblocks}
use os_from_scratch.Disk.{Device, Store}
use os_from_scratch.Request.{FilePath}
use os_from_scratch.FileSystem.Traverse.{InodeInfo, traverse_fs}

module _ (dev : Device) where
  open dev use {Block, Disk, disk_readblock, disk_writeblock, of_inode}

  -- `optional<out_block>`: `none` is an error, `some none` the null pointer of a success, and
  -- `some (some x)` the block that was read.
  abbrev pub Outcome : Type 0
  Outcome = Option (Option Block)

  -- The request once the file is found.
  unfoldable pub read_file : Store Disk → InodeInfo → ℕ → Outcome
  read_file s info block =
      if info.inode.type == b'd'
      then none
      else if leb info.inode.size block
      then none
      else some (some (disk_readblock s.disk (get_or info.inode.blocks block 0)))

  unfoldable pub read_block : Store Disk → Bytes → FilePath → ℕ → Outcome
  unfolding read_file
  read_block s username [] block = none
  read_block s username (name ∷ path) block =
      if leb fs_maxfileblocks block
      then none
      else elim (traverse_fs dev s.disk (name ∷ path) username) [
        | none ↦ none
        | some info ↦ read_file s info block
      ]

  -- The block right past the end: a free block becomes the file's last.
  unfoldable pub append_block : Store Disk → InodeInfo → ℕ → Block → List ℕ → Store Disk × Outcome
  append_block s info block x [] = (s, none)
  append_block s info block x (b ∷ free) =
      let inode = record info.inode {
        blocks = set info.inode.blocks info.inode.size b;
        size = info.inode.size + 1;
      } in
      let d = disk_writeblock s.disk (get_or inode.blocks block 0) x in
      (record { disk = disk_writeblock d info.block (of_inode inode); free = free }, some none)

  unfoldable pub write_file : Store Disk → InodeInfo → ℕ → Block → Store Disk × Outcome
  unfolding append_block
  write_file s info block x =
      if info.inode.type == b'd'
      then (s, none)
      else if ltb block info.inode.size
      then (
        record s { disk = disk_writeblock s.disk (get_or info.inode.blocks block 0) x },
        some none,
      )
      else if block == info.inode.size
      then append_block s info block x s.free
      else (s, none)

  unfoldable pub write_block : Store Disk → Bytes → FilePath → ℕ → Block → Store Disk × Outcome
  unfolding write_file
  write_block s username [] block x = (s, none)
  write_block s username (name ∷ path) block x =
      if leb fs_maxfileblocks block
      then (s, none)
      else elim (traverse_fs dev s.disk (name ∷ path) username) [
        | none ↦ (s, none)
        | some info ↦ write_file s info block x
      ]
