-- ===== src/FileSystem/Sound/Reads.antt =====
-- What is read of a disk after a write.
use os_from_scratch.Common.{ℕ, ◌<◌, ◌≡◌, ◌≢◌, ap, ◌∙◌, List}
use os_from_scratch.Params.{fs_disksize}
use os_from_scratch.Disk.{Device, Direntry, Inode, IsInode, IsDirentries}
use os_from_scratch.FileSystem.Traverse.{read_inode, read_direntries}

module _ (dev : Device) where
  open dev use {
    Block, Disk, disk_writeblock, of_inode, of_direntries, inode_of, direntries_of, read-write_self,
    read-write_ne, inode_of-of_inode, direntries_of-of_direntries,
  }

  pub read_inode-write_ne :
      (d : Disk) (b c : ℕ) (x : Block)
      → b ≢ c
      → read_inode dev (disk_writeblock d b x) c ≡ read_inode dev d c
  read_inode-write_ne d b c x h = ap inode_of (read-write_ne d b c x h)

  pub read_direntries-write_ne :
      (d : Disk) (b c : ℕ) (x : Block)
      → b ≢ c
      → read_direntries dev (disk_writeblock d b x) c ≡ read_direntries dev d c
  read_direntries-write_ne d b c x h = ap direntries_of (read-write_ne d b c x h)

  pub read_inode-write_self :
      (d : Disk) (b : ℕ) (i : Inode)
      → b < fs_disksize
      → IsInode i
      → read_inode dev (disk_writeblock d b (of_inode i)) b ≡ i
  read_inode-write_self d b i h k =
      ap inode_of (read-write_self d b (of_inode i) h) ∙ inode_of-of_inode i k

  pub read_direntries-write_self :
      (d : Disk) (b : ℕ) (es : List Direntry)
      → b < fs_disksize
      → IsDirentries es
      → read_direntries dev (disk_writeblock d b (of_direntries es)) b ≡ es
  read_direntries-write_self d b es h k =
      ap direntries_of (read-write_self d b (of_direntries es) h) ∙ direntries_of-of_direntries es k
