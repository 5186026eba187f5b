-- ===== src/FileSystem/Isolation.antt =====
-- filesystem.cpp: the requests and what belongs to another user.
pub mod Own
pub mod Write
pub mod Create
pub mod Delete
use os_from_scratch.Common.{ℕ, ◌≡◌, refl, Bytes}
use os_from_scratch.Disk.{Device, Inode, Store}
use os_from_scratch.Request.{Request, fs_readblock, fs_writeblock, fs_create, fs_delete}
use os_from_scratch.FileSystem.Invariant.{Role, Inv, tables}
use os_from_scratch.FileSystem.Isolation.Own.{IsForeign}
use os_from_scratch.FileSystem.Isolation.Write.{write_block_untouched}
use os_from_scratch.FileSystem.Isolation.Create.{create_untouched}
use os_from_scratch.FileSystem.Isolation.Delete.{delete_untouched}
use os_from_scratch.FileSystem.{execute_request}

-- The user in whose name a request comes.
abbrev pub user_of : {D : Type 0} → Request D → Bytes
user_of (fs_readblock username path block) = username
user_of (fs_writeblock username path block x) = username
user_of (fs_create username path type) = username
user_of (fs_delete username path) = username

module _ (dev : Device) where
  open dev use {Block, Disk, disk_readblock}

  -- In a sound file system, no request, whether it succeeds or not, changes the inode block of
  -- another user's file or directory or a block of its content.
  pub execute_request_foreign :
      (s : Store Disk) (role : ℕ → Role) (junk : Inode) (r : Request Block) (q c : ℕ)
      → Inv (tables dev s) role
      → IsForeign dev s role (user_of r) q c
      → disk_readblock (execute_request dev s junk r).0.disk c ≡ disk_readblock s.disk c
  unfolding execute_request
  execute_request_foreign s role junk (fs_readblock username path k) q c inv f = refl
  execute_request_foreign s role junk (fs_writeblock username path k x) q c inv f =
      write_block_untouched dev s role inv username q c f path k x
  execute_request_foreign s role junk (fs_create username path type) q c inv f =
      create_untouched dev s role inv username q c f junk path type
  execute_request_foreign s role junk (fs_delete username path) q c inv f =
      delete_untouched dev s role inv username q c f path
