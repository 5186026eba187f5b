-- ===== src/FileSystem/Lookup.antt =====
-- filesystem.cpp, traverse_fs: what a walk from the root finds.
use os_from_scratch.Common.{
  ℕ, suc, ◌≡◌, ◌≢◌, ◌⊎◌, inl, inr, refl, Bool, true, false, List, [], ◌∷◌, some, get_elem?, Bytes,
  arith, Bool-cases, Option-cases,
}
use os_from_scratch.Disk.{Device, Direntry, Store, used, names_file, owned_by}
use os_from_scratch.Request.{FilePath}
use os_from_scratch.FileSystem.Traverse.{
  InodeInfo, find_entry, find_name, walk, traverse_fs, read_inode, read_direntries,
}
use os_from_scratch.FileSystem.Invariant.{Role, holds_inode, target_at, Inv, tables}

-- The entry at an index, if there is one, has the name and is in use.
find_entry_at :
    (name : Bytes) (es : List Direntry) {t : ℕ}
    → find_entry name es ≡ some t
    → (j : ℕ) × (target_at es j ≡ t) × (t ≢ 0)
unfolding find_entry names_file
find_entry_at name [] h = absurd (cc)
find_entry_at name (e ∷ es) h = elim (Bool-cases (names_file name e)) [
  | inl y ↦ (0, ground arith, ground arith)
  | inr n ↦ let (j, k, z) = find_entry_at name es (ground arith) in (suc j, k, z)
]

module _ (dev : Device) where
  open dev use {Disk}

  find_name_at :
      (d : Disk) (name : Bytes) (bs : List ℕ) {t : ℕ}
      → find_name dev d name bs ≡ some t
      → (i : ℕ) × (c : ℕ) × (j : ℕ) × (get_elem? bs i ≡ some c)
        × (target_at (read_direntries dev d c) j ≡ t)
        × (t ≢ 0)
  unfolding find_name
  find_name_at d name [] h = absurd (cc)
  find_name_at d name (b ∷ bs) h = elim (Option-cases (find_entry name (read_direntries dev d b))) [
    | inl e ↦
        let (i, c, j, g, k, z) = find_name_at d name bs (ground arith) in (suc i, c, j, g, k, z)
    | inr (t', e) ↦
        let (j, k, z) = find_entry_at name (read_direntries dev d b) e in
        (0, b, j, refl, ground arith, ground arith)
  ]

  module _ (s : Store Disk) (role : ℕ → Role) (inv : Inv (tables dev s) role) where
    -- A name that is found in a directory is that of an inode.
    pub find_name-holds_inode :
        (p : ℕ) (name : Bytes) {t : ℕ}
        → holds_inode (role p) ≡ true
        → (read_inode dev s.disk p).type ≡ b'd'
        → find_name dev s.disk name (used (read_inode dev s.disk p)) ≡ some t
        → holds_inode (role t) ≡ true
    find_name-holds_inode p name h d e =
        let (i, c, j, g, k, z) = find_name_at s.disk name (used (read_inode dev s.disk p)) e in
        ground (arith, inv.content_from p i c h g, inv.entry_from p i c j)

    walk-holds_inode :
        (owner : Bytes) (at_root : Bool) (b : ℕ) (path : FilePath) {info : InodeInfo}
        → holds_inode (role b) ≡ true
        → walk dev s.disk owner at_root b path ≡ some info
        → (holds_inode (role info.block) ≡ true)
          × (info.inode ≡ read_inode dev s.disk info.block)
          × (owned_by owner info.inode ≡ true)
    unfolding walk
    walk-holds_inode owner at_root b [] h e = ground arith
    walk-holds_inode owner at_root b (name ∷ path) h e =
        elim (Option-cases (find_name dev s.disk name (used (read_inode dev s.disk b)))) [
          | inl k ↦ absurd (ground arith)
          | inr (t, k) ↦
              walk-holds_inode owner false t path
                (find_name-holds_inode b name h (ground (arith, inv.type_of b h)) k) (ground arith)
        ]

    -- A traversal ends at an inode of the file system, with the inode as it is on the disk; the
    -- caller owns it unless the path is empty.
    pub traverse_fs-holds_inode :
        (path : FilePath) (owner : Bytes) {info : InodeInfo}
        → traverse_fs dev s.disk path owner ≡ some info
        → (holds_inode (role info.block) ≡ true)
          × (info.inode ≡ read_inode dev s.disk info.block)
          × ((path ≡ []) ⊎ (owned_by owner info.inode ≡ true))
    unfolding traverse_fs
    traverse_fs-holds_inode [] owner e = ground (arith, inv.root_role)
    traverse_fs-holds_inode (name ∷ path) owner e = ground (
      arith,
      inv.root_role,
      walk-holds_inode owner true 0 (name ∷ path) (ground (arith, inv.root_role)) e,
    )
