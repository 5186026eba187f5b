-- ===== src/FileSystem/Sound/Create.antt =====
-- filesystem.cpp: FS_CREATE and the invariant.
use os_from_scratch.Common.{
  ℕ, ◌<◌, ◌≤◌, ◌≡◌, ◌⊎◌, inl, inr, refl, sym, subst, ◌∙◌, true, List, [], ◌∷◌, Option, some, none,
  length, Bytes, ◌==◌, arith, Bool-cases, Option-cases,
}
use os_from_scratch.Params.{fs_maxfileblocks, fs_maxfilename, fs_maxusername}
use os_from_scratch.Disk.{Device, Direntry, Inode, IsInode, Store, used}
use os_from_scratch.Request.{FilePath}
use os_from_scratch.FileSystem.Traverse.{read_inode, read_direntries, traverse_fs}
use os_from_scratch.FileSystem.Create.{
  Spot, back, pop_back, fill_entry, new_inode, scan_blocks, use_spot, place, allocate_and_place,
  create_in, create_from, create,
}
use os_from_scratch.FileSystem.Arrays.{target_at-fill_entry, fill_entry-IsDirentries}
use os_from_scratch.FileSystem.Lookup.{traverse_fs-holds_inode}
use os_from_scratch.FileSystem.Scan.{scan_blocks_spot}
use os_from_scratch.FileSystem.Invariant.Allocate.{first_free}
use os_from_scratch.FileSystem.Invariant.Link.{link-Inv}
use os_from_scratch.FileSystem.Invariant.{
  Role, inode_at, content, holds_inode, target_at, Inv, assign, tables, IsSound,
}
use os_from_scratch.FileSystem.Sound.Reads.{
  read_inode-write_ne, read_direntries-write_ne, read_inode-write_self, read_direntries-write_self,
}
use os_from_scratch.FileSystem.Sound.Extend.{extend_dir-IsSound}
use os_from_scratch.FileSystem.Sound.New.{IsNew, new_inode-IsNew, used_empty}
use os_from_scratch.FileSystem.Sound.Write.{at_disk}

module _ (dev : Device) where
  open dev use {
    Disk, disk_readblock, disk_writeblock, of_inode, of_direntries, inode_of-IsInode,
    direntries_of-IsDirentries,
  }

  module _ (s : Store Disk) (role : ℕ → Role) (inv : Inv (tables dev s) role) (new : Inode)
      (is_new : IsNew new) (name : Bytes) (short : length name ≤ fs_maxfilename) where
    use_spot-IsSound :
        (p i c j b : ℕ) (rest : List ℕ)
        → s.free ≡ b ∷ rest
        → role c ≡ content p i
        → (read_inode dev s.disk p).type ≡ b'd'
        → target_at (read_direntries dev s.disk c) j ≡ 0
        → j < length (read_direntries dev s.disk c)
        → IsSound dev (
            use_spot dev
              (record s { free = rest })
              (record { block = c; index = j; direntries = read_direntries dev s.disk c })
              b
              new
              name)
    unfolding use_spot
    use_spot-IsSound p i c j b rest e r d v l =
        let es : List Direntry = read_direntries dev s.disk c in
        let d₁ : Disk = disk_writeblock s.disk b (of_inode new) in
        let d₂ : Disk = disk_writeblock d₁ c (of_direntries (fill_entry es j b name)) in
        let fresh = first_free (tables dev s) role inv b rest e in
        let read_new : read_inode dev d₂ b ≡ new =
          read_inode-write_ne dev d₁ c b _ (λ z. ground arith)
          ∙ read_inode-write_self dev s.disk b new fresh.1 is_new.shape in
        let read_es : read_direntries dev d₂ c ≡ fill_entry es j b name =
          read_direntries-write_self dev d₁ c _ (inv.in_range c (λ z. ground arith)) (
            fill_entry-IsDirentries es j b name short
              (direntries_of-IsDirentries (disk_readblock s.disk c))) in
        (
          assign role b (inode_at c j),
          link-Inv (tables dev s) (tables dev (record { disk = d₂; free = rest })) role inv b p i c
              j e r d v (λ k. rw read_es (target_at-fill_entry es j b name k l))
              (rw read_new is_new.type_is) (rw read_new is_new.size_is)
              (λ k. rw read_new (used_empty new k is_new.size_is))
              (λ q h.
                read_inode-write_ne dev d₁ c q _ (ground arith)
                ∙ read_inode-write_ne dev s.disk b q _ (ground arith))
              (λ q k c' h n.
                read_direntries-write_ne dev d₁ c c' _ (λ z. n (sym z))
                ∙ read_direntries-write_ne dev s.disk b c' _ (ground arith)),
        )

    place-IsSound :
        (p b : ℕ) (spot : Option Spot) (rest : List ℕ)
        → s.free ≡ b ∷ rest
        → holds_inode (role p) ≡ true
        → (read_inode dev s.disk p).type ≡ b'd'
        → scan_blocks dev s.disk name (used (read_inode dev s.disk p)) none ≡ some spot
        → IsSound dev
            (place dev
              (record s { free = rest })
              (record { inode = read_inode dev s.disk p; block = p })
              spot
              b
              new
              name).0
    unfolding place
    place-IsSound p b (some spot) rest e h d k =
        let (i, g, same, v, l) =
          scan_blocks_spot dev s.disk name (used (read_inode dev s.disk p)) k in
        let r : role spot.block ≡ content p i = inv.content_from p i spot.block h g in
        subst
          (λ es.
            IsSound dev (
              use_spot dev (record s { free = rest }) (record spot { direntries = es }) b new name))
          (sym same)
          (use_spot-IsSound p i spot.block spot.index b rest e r d (rw same at v) (rw same at l))
    place-IsSound p b none rest e h d k =
        elim (Bool-cases ((read_inode dev s.disk p).size == fs_maxfileblocks)) [
          | inl full ↦
              rw full (role, subst (λ f. Inv (tables dev (record s { free = f })) role) e inv)
          | inr room ↦ rw room (
              extend_dir-IsSound dev s role inv new is_new name short p b rest rest e refl h d
                (ground (arith, inv.size_of p)))
        ]

    allocate-IsSound :
        (p : ℕ) (spot : Option Spot) (unread : List ℕ)
        → s.free ≡ unread
        → holds_inode (role p) ≡ true
        → (read_inode dev s.disk p).type ≡ b'd'
        → scan_blocks dev s.disk name (used (read_inode dev s.disk p)) none ≡ some spot
        → IsSound dev
            (allocate_and_place dev s
              (record { inode = read_inode dev s.disk p; block = p })
              spot
              new
              name
              unread).0
    unfolding allocate_and_place
    allocate-IsSound p spot [] e h d k = (role, inv)
    allocate-IsSound p spot (b ∷ rest) e h d k = place-IsSound p b spot rest e h d k

    create_in-IsSound :
        (p : ℕ)
        → holds_inode (role p) ≡ true
        → IsSound dev
            (create_in dev s (record { inode = read_inode dev s.disk p; block = p }) new name).0
    unfolding create_in
    create_in-IsSound p h = elim (Bool-cases ((read_inode dev s.disk p).type == b'f')) [
      | inl f ↦ rw f (role, inv)
      | inr n ↦
          rw n
            (elim (Option-cases
              (scan_blocks dev s.disk name (used (read_inode dev s.disk p)) none)) [
                | inl e ↦ rw e (role, inv)
                | inr (spot, e) ↦
                    rw e (allocate-IsSound p spot s.free refl h (ground (arith, inv.type_of p)) e)
              ])
    ]

  module _ (s : Store Disk) (role : ℕ → Role) (inv : Inv (tables dev s) role) (junk : Inode)
      (junk_shape : IsInode junk) (username : Bytes)
      (username_short : length username ≤ fs_maxusername) (type : ℕ)
      (type_is : (type ≡ b'f') ⊎ (type ≡ b'd')) where
    create_from-IsSound :
        (path : FilePath) (unread : List ℕ)
        → length (back path) ≤ fs_maxfilename
        → IsSound dev (create_from dev s junk username path type unread).0
    unfolding create_from
    create_from-IsSound path [] l = (role, inv)
    create_from-IsSound path (_ ∷ _) l =
        elim (Option-cases (traverse_fs dev s.disk (pop_back path) username)) [
          | inl e ↦ rw (e, create_from) (role, inv)
          | inr (dir, e) ↦
              let (h, same, _) =
                traverse_fs-holds_inode dev s role inv (pop_back path) username e in
              rw (e, create_from)
                (subst
                  (λ y.
                    IsSound dev (create_in dev s y (new_inode junk type username) (back path)).0)
                  (at_disk dev dir same)
                  (create_in-IsSound s role inv (new_inode junk type username)
                    (new_inode-IsNew junk type username junk_shape username_short type_is)
                    (back path) l dir.block h))
        ]

    pub create-IsSound :
        (path : FilePath)
        → length (back path) ≤ fs_maxfilename
        → IsSound dev (create dev s junk username path type).0
    unfolding create
    create-IsSound [] l = (role, inv)
    create-IsSound (name ∷ path) l = create_from-IsSound (name ∷ path) s.free l
