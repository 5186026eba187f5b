-- ===== src/FileSystem/Isolation/Create.antt =====
-- filesystem.cpp: FS_CREATE and what belongs to another user.
use mathlib.Core.List.{Mem, mem-cons_self, mem-cons_of_mem}
use os_from_scratch.Common.{
  ℕ, ◌≡◌, inl, inr, refl, sym, subst, ap, ◌∙◌, true, List, [], ◌∷◌, Option, some, none, Bytes, ◌==◌,
  Bool-cases, Option-cases,
}
use os_from_scratch.Params.{fs_maxfileblocks}
use os_from_scratch.Disk.{Device, Inode, Store, used}
use os_from_scratch.Request.{FilePath}
use os_from_scratch.FileSystem.Traverse.{read_inode, traverse_fs}
use os_from_scratch.FileSystem.Create.{
  Spot, back, pop_back, new_inode, scan_blocks, use_spot, extend_dir, place, allocate_and_place,
  create_in, create_from, create,
}
use os_from_scratch.FileSystem.Lookup.{traverse_fs-holds_inode}
use os_from_scratch.FileSystem.Scan.{scan_blocks_spot}
use os_from_scratch.FileSystem.Sound.Write.{at_disk}
use os_from_scratch.FileSystem.Invariant.Allocate.{first_free}
use os_from_scratch.FileSystem.Invariant.{Role, free, content, holds_inode, Inv, tables}
use os_from_scratch.FileSystem.Isolation.Own.{
  IsForeign, IsOwn, Untouched, free_ne, own_ne, content_ne, IsOwn-of,
}

module _ (dev : Device) where
  open dev use {
    Block, Disk, disk_readblock, disk_writeblock, read-write_ne, inode_of-IsInode, of_inode,
    of_direntries,
  }

  module _ (s : Store Disk) (role : ℕ → Role) (inv : Inv (tables dev s) role) (username : Bytes)
      (q c : ℕ) (foreign : IsForeign dev s role username q c) where
    abbrev IsOwn' : ℕ → Type 0
    IsOwn' = IsOwn dev s role inv username q c foreign

    abbrev Same : Store Disk → Type 0
    Same = Untouched dev s role inv username q c foreign

    use_spot_untouched :
        (p i b : ℕ) (spot : Spot) (rest : List ℕ) (inode : Inode) (name : Bytes)
        → role b ≡ free
        → IsOwn' p
        → role spot.block ≡ content p i
        → Same (use_spot dev (record s { free = rest }) spot b inode name)
    unfolding use_spot
    use_spot_untouched p i b spot rest inode name f o r =
        read-write_ne _ spot.block c _
          (content_ne dev s role inv username q c foreign p i spot.block o r)
        ∙ read-write_ne s.disk b c _ (free_ne dev s role inv username q c foreign b f)

    extend_dir_untouched :
        (p b : ℕ) (rest unread : List ℕ) (inode : Inode) (name : Bytes)
        → s.free ≡ b ∷ rest
        → rest ≡ unread
        → holds_inode (role p) ≡ true
        → IsOwn' p
        → Same
            (extend_dir dev
              (record s { free = rest })
              (record { inode = read_inode dev s.disk p; block = p })
              b
              inode
              name
              unread).0
    unfolding extend_dir
    extend_dir_untouched p b rest [] inode name e k h o = refl
    extend_dir_untouched p b rest (m ∷ unread) inode name e k h o =
        let in_list = subst (Mem m) (sym (e ∙ ap (◌∷◌ b) k)) (mem-cons_of_mem b mem-cons_self) in
        read-write_ne _ p c _ (own_ne dev s role inv username q c foreign p h o)
        ∙ read-write_ne _ b c _ (
            free_ne dev s role inv username q c foreign b
              (first_free (tables dev s) role inv b rest e).0)
        ∙ read-write_ne s.disk m c _
            (free_ne dev s role inv username q c foreign m (inv.unused_from m in_list).0)

    place_untouched :
        (p b : ℕ) (spot : Option Spot) (rest : List ℕ) (inode : Inode) (name : Bytes)
        → s.free ≡ b ∷ rest
        → holds_inode (role p) ≡ true
        → IsOwn' p
        → scan_blocks dev s.disk name (used (read_inode dev s.disk p)) none ≡ some spot
        → Same
            (place dev
              (record s { free = rest })
              (record { inode = read_inode dev s.disk p; block = p })
              spot
              b
              inode
              name).0
    unfolding place
    place_untouched p b (some spot) rest inode name e h o k =
        let (i, g, _, _, _) = scan_blocks_spot dev s.disk name (used (read_inode dev s.disk p)) k in
        use_spot_untouched p i b spot rest inode name
          (first_free (tables dev s) role inv b rest e).0 o (inv.content_from p i spot.block h g)
    place_untouched p b none rest inode name e h o k =
        elim (Bool-cases ((read_inode dev s.disk p).size == fs_maxfileblocks)) [
          | inl full ↦ rw full
          | inr room ↦ rw room (extend_dir_untouched p b rest rest inode name e refl h o)
        ]

    allocate_untouched :
        (p : ℕ) (spot : Option Spot) (unread : List ℕ) (inode : Inode) (name : Bytes)
        → s.free ≡ unread
        → holds_inode (role p) ≡ true
        → IsOwn' p
        → scan_blocks dev s.disk name (used (read_inode dev s.disk p)) none ≡ some spot
        → Same
            (allocate_and_place dev s
              (record { inode = read_inode dev s.disk p; block = p })
              spot
              inode
              name
              unread).0
    unfolding allocate_and_place
    allocate_untouched p spot [] inode name e h o k = refl
    allocate_untouched p spot (b ∷ rest) inode name e h o k =
        place_untouched p b spot rest inode name e h o k

    create_in_untouched :
        (p : ℕ) (inode : Inode) (name : Bytes)
        → holds_inode (role p) ≡ true
        → IsOwn' p
        → Same
            (create_in dev s (record { inode = read_inode dev s.disk p; block = p }) inode name).0
    unfolding create_in
    create_in_untouched p inode name h o =
        elim (Bool-cases ((read_inode dev s.disk p).type == b'f')) [
          | inl f ↦ rw f
          | inr n ↦
              rw n
                (elim (Option-cases
                  (scan_blocks dev s.disk name (used (read_inode dev s.disk p)) none)) [
                    | inl e ↦ rw e
                    | inr (spot, e) ↦ rw e (allocate_untouched p spot s.free inode name refl h o e)
                  ])
        ]

    create_from_untouched :
        (junk : Inode) (path : FilePath) (type : ℕ) (unread : List ℕ)
        → Same (create_from dev s junk username path type unread).0
    unfolding create_from
    create_from_untouched junk path type [] = refl
    create_from_untouched junk path type (_ ∷ _) =
        elim (Option-cases (traverse_fs dev s.disk (pop_back path) username)) [
          | inl e ↦ rw (e, create_from)
          | inr (dir, e) ↦
              let (h, same, _) =
                traverse_fs-holds_inode dev s role inv (pop_back path) username e in
              rw (e, create_from)
                (subst (λ y. Same (create_in dev s y (new_inode junk type username) (back path)).0)
                  (at_disk dev dir same)
                  (create_in_untouched dir.block (new_inode junk type username) (back path) h
                    (IsOwn-of dev s role inv username q c foreign (pop_back path) e)))
        ]

    pub create_untouched :
        (junk : Inode) (path : FilePath) (type : ℕ) → Same (create dev s junk username path type).0
    unfolding create
    create_untouched junk [] type = refl
    create_untouched junk (name ∷ path) type = create_from_untouched junk (name ∷ path) type s.free
