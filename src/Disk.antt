-- ===== src/Disk.antt =====
-- fs_server.h: the on-disk structures, and the interface to the disk.
-- The disk and the layout of a struct in a block's 512 bytes are not the repository's code: they
-- are the fields of `Device`, with what fs_server.h documents of disk_readblock and
-- disk_writeblock, and that a struct written to a block is read back as it was.
use os_from_scratch.Common.{
  ℕ, suc, ◌<◌, ◌≡◌, ◌≢◌, List, take, length, All, Bytes, same_name, ◌==◌, not, Bool, ◌&&◌,
}
use os_from_scratch.Params.{
  fs_maxfileblocks, fs_maxfilename, fs_maxusername, fs_disksize, fs_direntries,
}

-- struct fs_direntry: `name` is the array of 60 chars; an unused entry has `inode_block` 0.
pub record Direntry : Type 0 where
  pub name : Bytes
  pub inode_block : ℕ

-- struct fs_inode: `type` is 'f' or 'd', `owner` the array of 11 chars, `blocks` that of 124 numbers.
pub record Inode : Type 0 where
  pub type : ℕ
  pub owner : Bytes
  pub size : ℕ
  pub blocks : List ℕ

-- The arrays of a struct have the lengths that fs_server.h gives them.
pub record IsInode (i : Inode) : Type 0 where
  pub owner_length : length i.owner ≡ suc fs_maxusername
  pub blocks_length : length i.blocks ≡ fs_maxfileblocks

pub record IsDirentries (es : List Direntry) : Type 0 where
  pub count : length es ≡ fs_direntries
  pub names : All (λ e. length e.name ≡ suc fs_maxfilename) es

pub record Device : Type 1 where
  pub Block : Type 0
  pub Disk : Type 0
  pub disk_readblock : Disk → ℕ → Block
  pub disk_writeblock : Disk → ℕ → Block → Disk
  -- The casts of a block's bytes to the structs, and back.
  pub inode_of : Block → Inode
  pub of_inode : Inode → Block
  pub direntries_of : Block → List Direntry
  pub of_direntries : List Direntry → Block
  pub read-write_self :
      (d : Disk) (b : ℕ) (x : Block)
      → b < fs_disksize
      → disk_readblock (disk_writeblock d b x) b ≡ x
  pub read-write_ne :
      (d : Disk) (b c : ℕ) (x : Block)
      → b ≢ c
      → disk_readblock (disk_writeblock d b x) c ≡ disk_readblock d c
  pub inode_of-IsInode : (x : Block) → IsInode (inode_of x)
  pub inode_of-of_inode : (i : Inode) → IsInode i → inode_of (of_inode i) ≡ i
  pub direntries_of-IsDirentries : (x : Block) → IsDirentries (direntries_of x)
  pub direntries_of-of_direntries :
      (es : List Direntry) → IsDirentries es → direntries_of (of_direntries es) ≡ es

-- The blocks that a loop `for (i = 0; i < inode.size; ++i)` over `inode.blocks[i]` visits.
abbrev pub used : Inode → List ℕ
used i = take i.size i.blocks

-- `entry.inode_block != 0 && strcmp(entry.name, name) == 0`.
unfoldable pub names_file : Bytes → Direntry → Bool
names_file name e = not (e.inode_block == 0) && same_name name e.name

-- strcmp(inode.owner, username) == 0.
unfoldable pub owned_by : Bytes → Inode → Bool
owned_by username i = same_name username i.owner

-- The disk (fs_server.h) and the blocks that are not in use (`free_disk_blocks`).
pub record Store (D : Type 0) : Type 0 where
  pub disk : D
  pub free : List ℕ
