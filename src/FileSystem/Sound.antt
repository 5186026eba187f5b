-- ===== src/FileSystem/Sound.antt =====
-- filesystem.cpp: the requests and the invariant.
pub mod Reads
pub mod Write
pub mod New
pub mod Extend
pub mod Create
pub mod Delete
use os_from_scratch.Common.{ℕ, ◌≤◌, ◌≡◌, ◌⊎◌, List, length, Bytes}
use os_from_scratch.Params.{fs_maxfilename, fs_maxusername}
use os_from_scratch.Disk.{Device, Inode, IsInode, Store}
use os_from_scratch.Request.{Request, fs_readblock, fs_writeblock, fs_create, fs_delete}
use os_from_scratch.FileSystem.Create.{back}
use os_from_scratch.FileSystem.{execute_request}
use os_from_scratch.FileSystem.Invariant.{IsSound}
use os_from_scratch.FileSystem.Sound.Write.{write_block-IsSound}
use os_from_scratch.FileSystem.Sound.Create.{create-IsSound}
use os_from_scratch.FileSystem.Sound.Delete.{delete-IsSound}

-- What FS_CREATE needs of its request: names that fit their arrays, and a type that is known.
abbrev pub Fits : {D : Type 0} → Request D → Type 0
Fits (fs_readblock username path block) = Unit
Fits (fs_writeblock username path block x) = Unit
Fits (fs_create username path type) =
    (length username ≤ fs_maxusername)
    × (length (back path) ≤ fs_maxfilename)
    × ((type ≡ b'f') ⊎ (type ≡ b'd'))
Fits (fs_delete username path) = Unit

module _ (dev : Device) where
  open dev use {Block, Disk}

  -- Whatever a request does to a sound file system and however it ends, the file system is sound
  -- again: each block has one role, every inode but the root's is named by one entry, and the free
  -- list has exactly the other blocks, each once. The names of a create fit their arrays and its
  -- type is known, and the arrays in the new inode's storage have their lengths.
  pub execute_request-IsSound :
      (s : Store Disk) (junk : Inode) (r : Request Block)
      → IsInode junk
      → Fits r
      → IsSound dev s
      → IsSound dev (execute_request dev s junk r).0
  unfolding execute_request
  execute_request-IsSound s junk (fs_readblock username path block) shape fits sound = sound
  execute_request-IsSound s junk (fs_writeblock username path block x) shape fits (role, inv) =
      write_block-IsSound dev s role inv username path block x
  execute_request-IsSound s junk (fs_create username path type) shape (u, n, t) (role, inv) =
      create-IsSound dev s role inv junk shape username u type t path n
  execute_request-IsSound s junk (fs_delete username path) shape fits (role, inv) =
      delete-IsSound dev s role inv username path
