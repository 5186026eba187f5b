-- ===== src/FileSystem/Isolation/Delete.antt =====
-- filesystem.cpp: FS_DELETE and what belongs to another user.
use os_from_scratch.Common.{
  ℕ, ◌≡◌, inl, inr, refl, subst, not, true, ◌&&◌, [], ◌∷◌, length, Bytes, ◌==◌, ltb, arith,
  Bool-cases, Option-cases,
}
use os_from_scratch.Disk.{Device, Inode, Store, used, owned_by}
use os_from_scratch.Request.{FilePath}
use os_from_scratch.FileSystem.Traverse.{read_inode, traverse_fs}
use os_from_scratch.FileSystem.Create.{back, pop_back}
use os_from_scratch.FileSystem.Delete.{
  Found, find_found, only_target, unlink, release, delete_found, delete_in, delete,
}
use os_from_scratch.FileSystem.Lookup.{traverse_fs-holds_inode}
use os_from_scratch.FileSystem.Sound.Write.{at_disk}
use os_from_scratch.FileSystem.Sound.Delete.{FoundIn, find_found_at}
use os_from_scratch.FileSystem.Invariant.{Role, holds_inode, Inv, tables}
use os_from_scratch.FileSystem.Isolation.Own.{
  IsForeign, IsOwn, Untouched, own_ne, content_ne, IsOwn-of,
}

module _ (dev : Device) where
  open dev use {
    Block, Disk, disk_readblock, disk_writeblock, read-write_ne, inode_of-IsInode, of_inode,
    of_direntries,
  }

  module _ (s : Store Disk) (role : ℕ → Role) (inv : Inv (tables dev s) role) (username : Bytes)
      (q c : ℕ) (foreign : IsForeign dev s role username q c) where
    abbrev IsOwn' : ℕ → Type 0
    IsOwn' = IsOwn dev s role inv username q c foreign

    abbrev Same : Store Disk → Type 0
    Same = Untouched dev s role inv username q c foreign

    unlink_untouched :
        (p : ℕ) (found : Found)
        → holds_inode (role p) ≡ true
        → IsOwn' p
        → FoundIn dev s.disk 0 (used (read_inode dev s.disk p)) found
        → Same (unlink dev s (record { inode = read_inode dev s.disk p; block = p }) found)
    unfolding unlink
    unlink_untouched p found h o (k, position_is, g, same, t, z) =
        elim (Bool-cases (only_target found.target found.direntries)) [
          | inl only ↦
              rw only
                (read-write_ne s.disk p c _ (own_ne dev s role inv username q c foreign p h o))
          | inr more ↦ rw more (
              read-write_ne s.disk found.block c _ (
                content_ne dev s role inv username q c foreign p k found.block o
                  (inv.content_from p k found.block h g)))
        ]

    delete_found_untouched :
        (p : ℕ) (found : Found)
        → holds_inode (role p) ≡ true
        → IsOwn' p
        → FoundIn dev s.disk 0 (used (read_inode dev s.disk p)) found
        → Same
            (delete_found dev s
              (record { inode = read_inode dev s.disk p; block = p })
              found
              username).0
    unfolding delete_found release
    delete_found_untouched p found h o f =
        let i : Inode = read_inode dev s.disk found.target in
        elim (Bool-cases (not (owned_by username i))) [
          | inl other ↦ rw other
          | inr own ↦ rw own (elim (Bool-cases (i.type == b'd' && ltb 0 i.size)) [
            | inl full ↦ rw full
            | inr ready ↦ rw ready (unlink_untouched p found h o f)
          ])
        ]

    delete_in_untouched :
        (p : ℕ) (name : Bytes)
        → holds_inode (role p) ≡ true
        → IsOwn' p
        → Same
            (delete_in dev s
              (record { inode = read_inode dev s.disk p; block = p })
              name
              username).0
    unfolding delete_in
    delete_in_untouched p name h o =
        elim (Option-cases (find_found dev s.disk name 0 (used (read_inode dev s.disk p)))) [
          | inl e ↦ ground arith
          | inr (found, e) ↦ ground (
            arith,
            delete_found_untouched p found h o
                (find_found_at dev s.disk name 0 (used (read_inode dev s.disk p)) e),
          )
        ]

    pub delete_untouched : (path : FilePath) → Same (delete dev s username path).0
    unfolding delete
    delete_untouched [] = refl
    delete_untouched (name ∷ path) = elim (Bool-cases (length s.free == 4095)) [
      | inl all ↦ rw all
      | inr some_used ↦
          rw some_used
            (elim (Option-cases (traverse_fs dev s.disk (pop_back (name ∷ path)) username)) [
              | inl e ↦ rw e
              | inr (dir, e) ↦
                  let (h, same, _) =
                    traverse_fs-holds_inode dev s role inv (pop_back (name ∷ path)) username e in
                  rw e (
                    subst (λ y. Same (delete_in dev s y (back (name ∷ path)) username).0)
                      (at_disk dev dir same)
                      (delete_in_untouched dir.block (back (name ∷ path)) h
                        (IsOwn-of dev s role inv username q c foreign (pop_back (name ∷ path)) e)))
            ])
    ]
