-- ===== src/FileSystem/Isolation/Own.antt =====
-- filesystem.cpp: which blocks a request may write, and which belong to somebody else.
use os_from_scratch.Common.{ℕ, ◌≡◌, ◌≢◌, ◌⊎◌, inl, inr, true, false, [], ◌∷◌, some, Bytes, arith}
use os_from_scratch.Disk.{Device, Store, owned_by}
use os_from_scratch.Request.{FilePath}
use os_from_scratch.FileSystem.Traverse.{InodeInfo, read_inode, traverse_fs}
use os_from_scratch.FileSystem.Lookup.{traverse_fs-holds_inode}
use os_from_scratch.FileSystem.Invariant.{Role, free, content, holds_inode, Inv, tables}

module _ (dev : Device) where
  open dev use {
    Block, Disk, disk_readblock, disk_writeblock, read-write_ne, inode_of-IsInode, of_inode,
    of_direntries,
  }

  -- Inode `q` belongs to somebody else, and block `c` is its own or holds its content. The root
  -- directory is everybody's.
  pub record IsForeign (s : Store Disk) (role : ℕ → Role) (username : Bytes) (q c : ℕ)
      : Type 0 where
    pub holds : holds_inode (role q) ≡ true
    pub not_root : q ≢ 0
    pub other : owned_by username (read_inode dev s.disk q) ≡ false
    pub part : (c ≡ q) ⊎ ((i : ℕ) × (role c ≡ content q i))

  module _ (s : Store Disk) (role : ℕ → Role) (inv : Inv (tables dev s) role) (username : Bytes)
      (q c : ℕ) (foreign : IsForeign s role username q c) where
    -- The blocks that a request may write: unused ones, an inode of the user's or the root, and
    -- the content of such an inode.
    abbrev pub IsOwn : ℕ → Type 0
    IsOwn p = (p ≡ 0) ⊎ (owned_by username (read_inode dev s.disk p) ≡ true)

    pub free_ne : (b : ℕ) → role b ≡ free → b ≢ c
    free_ne b h e = elim foreign.part [
      | inl k ↦ ground (arith, foreign.holds)
      | inr (i, k) ↦ ground arith
    ]

    pub own_ne : (p : ℕ) → holds_inode (role p) ≡ true → IsOwn p → p ≢ c
    own_ne p h o e = elim foreign.part [
      | inl k ↦ ground (arith, foreign.not_root, foreign.other)
      | inr (i, k) ↦ ground arith
    ]

    pub content_ne : (p i b : ℕ) → IsOwn p → role b ≡ content p i → b ≢ c
    content_ne p i b o h e = elim foreign.part [
      | inl k ↦ ground (arith, foreign.holds)
      | inr (j, k) ↦ ground (arith, foreign.not_root, foreign.other)
    ]

    abbrev pub Untouched : Store Disk → Type 0
    Untouched t = disk_readblock t.disk c ≡ disk_readblock s.disk c

    pub IsOwn-of :
        (path : FilePath) {info : InodeInfo}
        → traverse_fs dev s.disk path username ≡ some info
        → IsOwn info.block
    unfolding traverse_fs
    IsOwn-of [] e = ground arith
    IsOwn-of (name ∷ path) e =
        ground (arith, traverse_fs-holds_inode dev s role inv (name ∷ path) username e)
