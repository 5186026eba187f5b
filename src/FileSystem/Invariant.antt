-- ===== src/FileSystem/Invariant.antt =====
-- What holds of the file system between two requests: each block of the disk has one role.
pub mod Allocate
pub mod Data
pub mod Reorder
pub mod Grow
pub mod Shrink
pub mod GiveBack
pub mod Prune
pub mod Link
use mathlib.Core.List.{Mem, Nodup}
use os_from_scratch.Common.{
  ℕ, zero, suc, ◌<◌, ◌≤◌, ◌≡◌, ◌≢◌, ◌⊎◌, ◌↔◌, Bool, true, false, List, [], ◌∷◌, some, get_elem?,
  ◌==◌, if◌then◌else◌,
}
use os_from_scratch.Params.{fs_disksize, fs_maxfileblocks}
use os_from_scratch.Disk.{Device, Direntry, Inode, used, Store}
use os_from_scratch.FileSystem.Traverse.{read_inode, read_direntries}

-- `inode_at c j`: the inode that entry `j` of the direntries block `c` names.
-- `content p i`: the block at position `i` of the inode in block `p`, data or direntries.
pub data Role : Type 0 where
  free root : Role
  inode_at content : ℕ → ℕ → Role

abbrev pub holds_inode : Role → Bool
holds_inode free = false
holds_inode root = true
holds_inode (inode_at _ _) = true
holds_inode (content _ _) = false

-- The inode block that entry `j` names; 0 is also what an entry that is not there gives.
abbrev pub target_at : List Direntry → ℕ → ℕ
target_at [] j = 0
target_at (e ∷ es) zero = e.inode_block
target_at (e ∷ es) (suc j) = target_at es j

-- What a store shows: the inode and the direntries that each block is read as.
pub record Tables : Type 0 where
  pub inode : ℕ → Inode
  pub entries : ℕ → List Direntry
  pub unused : List ℕ

pub record Inv (t : Tables) (role : ℕ → Role) : Type 0 where
  pub root_role : role 0 ≡ root
  pub root_type : (t.inode 0).type ≡ b'd'
  -- No block beyond the end of the disk has a role.
  pub in_range : (c : ℕ) → role c ≢ free → c < fs_disksize
  pub type_of :
      (p : ℕ) → holds_inode (role p) ≡ true → ((t.inode p).type ≡ b'f') ⊎ ((t.inode p).type ≡ b'd')
  pub size_of : (p : ℕ) → holds_inode (role p) ≡ true → (t.inode p).size ≤ fs_maxfileblocks
  -- An inode's blocks are its own, each at one position.
  pub content_from :
      (p i c : ℕ)
      → holds_inode (role p) ≡ true
      → get_elem? (used (t.inode p)) i ≡ some c
      → role c ≡ content p i
  pub content_to :
      (p i c : ℕ)
      → role c ≡ content p i
      → (holds_inode (role p) ≡ true) × (get_elem? (used (t.inode p)) i ≡ some c)
  -- Each inode but the root's is named by one entry of one directory.
  pub entry_from :
      (p i c j : ℕ)
      → role c ≡ content p i
      → (t.inode p).type ≡ b'd'
      → target_at (t.entries c) j ≢ 0
      → role (target_at (t.entries c) j) ≡ inode_at c j
  pub entry_to :
      (c j b : ℕ)
      → role b ≡ inode_at c j
      → (p : ℕ) × (i : ℕ) × (role c ≡ content p i)
        × ((t.inode p).type ≡ b'd')
        × (target_at (t.entries c) j ≡ b)
  -- The free list has the other blocks, each once.
  pub unused_from : (c : ℕ) → Mem c t.unused → (role c ≡ free) × (c < fs_disksize)
  pub unused_to : (c : ℕ) → role c ≡ free → c < fs_disksize → Mem c t.unused
  pub unused_once : Nodup t.unused

abbrev pub assign : (ℕ → Role) → ℕ → Role → ℕ → Role
assign role c r x = if x == c then r else role x

module _ (dev : Device) where
  open dev use {Disk}

  abbrev pub tables : Store Disk → Tables
  tables s = record {
    inode = read_inode dev s.disk;
    entries = read_direntries dev s.disk;
    unused = s.free;
  }

  -- Roles can be given to the blocks.
  abbrev pub IsSound : Store Disk → Type 0
  IsSound s = (role : ℕ → Role) × Inv (tables s) role
