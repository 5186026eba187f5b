-- ===== src/FileSystem.antt =====
-- filesystem.cpp: the file system's requests on the disk and the list of free blocks. Each request
-- runs by itself here, without its locks.
pub mod Traverse
pub mod Blocks
pub mod Create
pub mod Delete
pub mod Init
pub mod Errors
pub mod Invariant
pub mod Arrays
pub mod Lookup
pub mod Scan
pub mod Sound
pub mod Isolation
pub mod ReadBack
pub mod Started
use os_from_scratch.Disk.{Device, Inode, Store}
use os_from_scratch.Request.{Request, fs_readblock, fs_writeblock, fs_create, fs_delete}
use os_from_scratch.FileSystem.Blocks.{Outcome, read_block, write_block}
use os_from_scratch.FileSystem.Create.{create}
use os_from_scratch.FileSystem.Delete.{delete}

module _ (dev : Device) where
  open dev use {Block, Disk}

  -- `junk` is what a new inode's storage holds before it is filled in.
  unfoldable pub execute_request : Store Disk → Inode → Request Block → Store Disk × Outcome dev
  execute_request s junk (fs_readblock username path block) =
      (s, read_block dev s username path block)
  execute_request s junk (fs_writeblock username path block x) =
      write_block dev s username path block x
  execute_request s junk (fs_create username path type) = create dev s junk username path type
  execute_request s junk (fs_delete username path) = delete dev s username path
