-- ===== src/FileSystem/Sound/Delete.antt =====
-- filesystem.cpp: FS_DELETE and the invariant.
use mathlib.Core.List.{Perm, perm_append_comm}
use mathlib.Core.List.Perm
use os_from_scratch.Common.{
  ℕ, suc, ◌+◌, ◌-◌, ◌≡◌, ◌≢◌, ◌⊎◌, inl, inr, refl, sym, ap, subst, ◌∙◌, not, true, ◌&&◌, List, [],
  ◌∷◌, ◌++◌, some, none, get_elem?, length, Bytes, ◌==◌, ltb, if◌then◌else◌, arith, Bool-cases,
  Option-cases, append_assoc, take_lt, ==_ne,
}
use os_from_scratch.Disk.{Device, Direntry, Inode, IsInode, Store, used, names_file, owned_by}
use os_from_scratch.Request.{FilePath}
use os_from_scratch.FileSystem.Traverse.{read_inode, read_direntries, traverse_fs}
use os_from_scratch.FileSystem.Create.{back, pop_back}
use os_from_scratch.FileSystem.Delete.{
  Found, find_slot, find_found, only_target, clear_entry, drop_block, data_blocks, unlink, release,
  delete_found, delete_in, delete,
}
use os_from_scratch.FileSystem.Arrays.{
  target_at-clear_entry, only_target_at, clear_entry-IsDirentries, length-shift, used-drop_block,
}
use os_from_scratch.FileSystem.Lookup.{traverse_fs-holds_inode}
use os_from_scratch.FileSystem.Invariant.Prune.{pruned, prune-Inv}
use os_from_scratch.FileSystem.Invariant.Shrink.{shrunk, shrink-Inv}
use os_from_scratch.FileSystem.Invariant.{
  Role, inode_at, content, holds_inode, target_at, Tables, Inv, tables, IsSound,
}
use os_from_scratch.FileSystem.Sound.Reads.{
  read_inode-write_ne, read_direntries-write_ne, read_inode-write_self, read_direntries-write_self,
}
use os_from_scratch.FileSystem.Sound.Write.{at_disk}

-- A slot is an entry in use of that name, at its index from `j` on.
find_slot_at :
    (name : Bytes) (j : ℕ) (es : List Direntry) {j' t : ℕ}
    → find_slot name j es ≡ some (j', t)
    → (k : ℕ) × (j' ≡ j + k) × (target_at es k ≡ t) × (t ≢ 0)
unfolding find_slot names_file
find_slot_at name j [] h = absurd (cc)
find_slot_at name j (e ∷ es) {j'} {t} h = elim (Bool-cases (names_file name e)) [
  | inl y ↦ (0, ground arith, ground arith, ground arith)
  | inr n ↦
      let (k, p, q, z) = find_slot_at name (j + 1) es {j' = j'} {t = t} (ground arith) in
      (suc k, omega arith, q, z)
]

-- The blocks that a deleted inode gives back are those that it uses, if it is an empty directory
-- or a file.
data_blocks-used :
    (i : Inode)
    → (i.type ≡ b'f') ⊎ (i.type ≡ b'd')
    → (i.type ≡ b'd' → i.size ≡ 0)
    → data_blocks i ≡ used i
unfolding data_blocks
data_blocks-used i (inl f) e = rw f
data_blocks-used i (inr d) e = rw d (rw (e d))

drop_block-IsInode : (i : Inode) (k : ℕ) → IsInode i → IsInode (drop_block i k)
unfolding drop_block
drop_block-IsInode i k h = record {
  owner_length = h.owner_length;
  blocks_length = omega (arith, length-shift (i.size - 1 - k) k i.blocks, h.blocks_length);
}

module _ (dev : Device) where
  open dev use {
    Disk, disk_readblock, disk_writeblock, of_inode, of_direntries, inode_of-IsInode,
    direntries_of-IsDirentries,
  }

  abbrev pub FoundIn : Disk → ℕ → List ℕ → Found → Type 0
  FoundIn d i bs found =
      (k : ℕ) × (found.position ≡ i + k)
      × (get_elem? bs k ≡ some found.block)
      × (found.direntries ≡ read_direntries dev d found.block)
      × (target_at found.direntries found.index ≡ found.target)
      × (found.target ≢ 0)

  pub find_found_at :
      (d : Disk) (name : Bytes) (i : ℕ) (bs : List ℕ) {found : Found}
      → find_found dev d name i bs ≡ some found
      → FoundIn d i bs found
  unfolding find_found
  find_found_at d name i [] h = absurd (cc)
  find_found_at d name i (b ∷ bs) {found} h =
      elim (Option-cases (find_slot name 0 (read_direntries dev d b))) [
        | inl e ↦
            let (k, p, g, s, q, z) =
              find_found_at d name (i + 1) bs {found = found} (ground arith) in
            (suc k, omega arith, g, s, q, z)
        | inr ((j, t), e) ↦
            let (k, p, q, z) = find_slot_at name 0 (read_direntries dev d b) e in
            (0, ground arith, ground arith, ground arith, ground arith, ground arith)
      ]

  module _ (s : Store Disk) (role : ℕ → Role) (inv : Inv (tables dev s) role) (p i c j b : ℕ)
      (in_dir : role c ≡ content p i) (is_dir : (read_inode dev s.disk p).type ≡ b'd')
      (named : target_at (read_direntries dev s.disk c) j ≡ b) (b_pos : b ≢ 0)
      (empty_dir : (read_inode dev s.disk b).type ≡ b'd' → (read_inode dev s.disk b).size ≡ 0) where
    abbrev target_role : role b ≡ inode_at c j
    target_role =
        subst (λ x. role x ≡ inode_at c j) named
          (inv.entry_from p i c j in_dir is_dir (λ z. b_pos (sym named ∙ z)))

    abbrev given_back : List ℕ
    given_back = used (read_inode dev s.disk b) ++ b ∷ []

    no_content :
        (read_inode dev s.disk b).type ≡ b'd'
        → (k : ℕ) → get_elem? (used (read_inode dev s.disk b)) k ≡ none
    no_content d k = rw (empty_dir d)

    freed_is : data_blocks (read_inode dev s.disk b) ≡ used (read_inode dev s.disk b)
    freed_is =
        data_blocks-used (read_inode dev s.disk b) (inv.type_of b (ground (arith, target_role)))
          empty_dir

    clear-IsSound : IsSound dev (
        release dev
          (record s {
            disk =
                disk_writeblock s.disk c
                  (of_direntries (clear_entry (read_direntries dev s.disk c) j));
          })
          (read_inode dev s.disk b)
          b)
    unfolding release
    clear-IsSound =
        let es : List Direntry = read_direntries dev s.disk c in
        let d : Disk = disk_writeblock s.disk c (of_direntries (clear_entry es j)) in
        let read_es : read_direntries dev d c ≡ clear_entry es j =
          read_direntries-write_self dev s.disk c _ (inv.in_range c (λ z. ground arith)) (
            clear_entry-IsDirentries es j (direntries_of-IsDirentries (disk_readblock s.disk c))) in
        (
          λ x. pruned c j b (role x),
          prune-Inv (tables dev s)
              (tables dev (record {
                disk = d;
                free = (s.free ++ data_blocks (read_inode dev s.disk b)) ++ b ∷ [];
              }))
              role inv b c j target_role
              (rw (freed_is, append_assoc) (Perm.refl (s.free ++ given_back))) no_content
              (λ k. rw read_es (target_at-clear_entry es j k))
              (λ q h. read_inode-write_ne dev s.disk c q _ (λ z. ground arith))
              (λ q k c' h n. read_direntries-write_ne dev s.disk c c' _ (λ z. n (sym z))),
        )

    -- The tables between the two steps: the entry is cleared, and its block is still there.
    abbrev between : Tables
    between = record {
      inode = read_inode dev s.disk;
      entries = λ x.
          if x == c
          then clear_entry (read_direntries dev s.disk c) j
          else read_direntries dev s.disk x;
      unused = s.free ++ given_back;
    }

    between-Inv : Inv between (λ x. pruned c j b (role x))
    between-Inv =
        prune-Inv (tables dev s) between role inv b c j target_role
          (Perm.refl (s.free ++ given_back)) no_content
          (λ k. ground (arith, target_at-clear_entry (read_direntries dev s.disk c) j k))
          (λ q h. refl) (λ q k c' h n. rw (==_ne c' c n))

    -- The free list after the request has the block of direntries in the middle.
    drop_order :
        Perm
          ((s.free ++ c ∷ []) ++ data_blocks (read_inode dev s.disk b) ++ b ∷ [])
          ((s.free ++ given_back) ++ c ∷ [])
    drop_order =
        rw (freed_is, append_assoc)
          (rw append_assoc
            (rw append_assoc (Perm.append_left s.free (perm_append_comm (c ∷ []) given_back))))

    -- With the target's entry cleared, a block that held nothing else is unused.
    cleared_empty :
        only_target b (read_direntries dev s.disk c) ≡ true
        → (k : ℕ) → target_at (between.entries c) k ≡ 0
    cleared_empty only k = ground (
      arith,
      target_at-clear_entry (read_direntries dev s.disk c) j k,
      only_target_at b (read_direntries dev s.disk c) k only,
      inv.entry_from p i c k in_dir is_dir,
      target_role,
      b_pos,
    )

    drop-IsSound :
        only_target b (read_direntries dev s.disk c) ≡ true
        → IsSound dev (
            release dev
              (record {
                disk = disk_writeblock s.disk p (of_inode (drop_block (read_inode dev s.disk p) i));
                free = s.free ++ c ∷ [];
              })
              (read_inode dev s.disk b)
              b)
    unfolding release drop_block
    drop-IsSound only =
        let es : List Direntry = read_direntries dev s.disk c in
        let dir : Inode = read_inode dev s.disk p in
        let shape : IsInode dir = inode_of-IsInode (disk_readblock s.disk p) in
        let at_p = inv.content_to p i c in_dir in
        let d : Disk = disk_writeblock s.disk p (of_inode (drop_block dir i)) in
        let u : Tables = tables dev (record {
          disk = d;
          free = ((s.free ++ c ∷ []) ++ data_blocks (read_inode dev s.disk b)) ++ b ∷ [];
        }) in
        let read_dir : read_inode dev d p ≡ drop_block dir i =
          read_inode-write_self dev s.disk p _ (inv.in_range p (λ z. ground arith))
            (drop_block-IsInode dir i shape) in
        let p_not_b : p ≢ b = λ z.
          ground
            (arith, no_content (ap (λ y. (read_inode dev s.disk y).type) (sym z) ∙ is_dir) i) in
        (
          λ x. shrunk p i (pruned c j b (role x)),
          shrink-Inv between u (λ x. pruned c j b (role x)) between-Inv p i c (ground arith)
              drop_order (cleared_empty only)
              (λ k. rw read_dir (
                used-drop_block dir i k (take_lt dir.size dir.blocks i at_p.1)
                  (omega (arith, shape.blocks_length, inv.size_of p at_p.0))))
              (rw read_dir (omega arith)) (rw read_dir)
              (λ q h n. read_inode-write_ne dev s.disk p q _ (λ z. n (sym z)))
              (λ q k c' h n.
                rw (==_ne c' c n) (read_direntries-write_ne dev s.disk p c' _ (λ z. ground arith))),
        )

    unlink-IsSound : IsSound dev (
        release dev
          (unlink dev s
            (record { inode = read_inode dev s.disk p; block = p })
            (record {
              position = i;
              block = c;
              index = j;
              target = b;
              direntries = read_direntries dev s.disk c;
            }))
          (read_inode dev s.disk b)
          b)
    unfolding unlink
    unlink-IsSound = elim (Bool-cases (only_target b (read_direntries dev s.disk c))) [
      | inl only ↦ rw only (drop-IsSound only)
      | inr more ↦ rw more clear-IsSound
    ]

  module _ (s : Store Disk) (role : ℕ → Role) (inv : Inv (tables dev s) role) where
    delete_found-IsSound :
        (p i c j b : ℕ) (username : Bytes)
        → role c ≡ content p i
        → (read_inode dev s.disk p).type ≡ b'd'
        → target_at (read_direntries dev s.disk c) j ≡ b
        → b ≢ 0
        → IsSound dev
            (delete_found dev s
              (record { inode = read_inode dev s.disk p; block = p })
              (record {
                position = i;
                block = c;
                index = j;
                target = b;
                direntries = read_direntries dev s.disk c;
              })
              username).0
    unfolding delete_found
    delete_found-IsSound p i c j b username r d e z =
        elim (Bool-cases (not (owned_by username (read_inode dev s.disk b)))) [
          | inl other ↦ rw other (role, inv)
          | inr own ↦
              rw own
                (elim (Bool-cases (
                  (read_inode dev s.disk b).type == b'd' && ltb 0 (read_inode dev s.disk b).size)) [
                    | inl full ↦ rw full (role, inv)
                    | inr ready ↦
                        rw ready (unlink-IsSound s role inv p i c j b r d e z (λ h. ground arith))
                  ])
        ]

    delete_in-IsSound :
        (p : ℕ) (name username : Bytes)
        → holds_inode (role p) ≡ true
        → IsSound dev
            (delete_in dev s
              (record { inode = read_inode dev s.disk p; block = p })
              name
              username).0
    unfolding delete_in
    delete_in-IsSound p name username h = elim (Bool-cases ((read_inode dev s.disk p).size == 0)) [
      | inl empty ↦ rw empty (role, inv)
      | inr more ↦ rw more (elim (Bool-cases ((read_inode dev s.disk p).type == b'f')) [
        | inl file ↦ rw file (role, inv)
        | inr dir ↦
            rw dir
              (elim (Option-cases (find_found dev s.disk name 0 (used (read_inode dev s.disk p)))) [
                | inl e ↦ rw e (role, inv)
                | inr (found, e) ↦ rw e (
                    found-IsSound found
                      (find_found_at s.disk name 0 (used (read_inode dev s.disk p)) e)
                      (ground (arith, inv.type_of p)))
              ])
      ])
    ]
      where
        found-IsSound :
            (found : Found)
            → FoundIn s.disk 0 (used (read_inode dev s.disk p)) found
            → (read_inode dev s.disk p).type ≡ b'd'
            → IsSound dev
                (delete_found dev s
                  (record { inode = read_inode dev s.disk p; block = p })
                  found
                  username).0
        found-IsSound found (k, position_is, g, same, t, z) d =
            let k_is : k ≡ found.position = omega arith in
            subst
              (λ es.
                IsSound dev
                  (delete_found dev s (record { inode = read_inode dev s.disk p; block = p })
                    (record found { direntries = es }) username).0)
              (sym same)
              (delete_found-IsSound p found.position found.block found.index found.target username
                (rw k_is at (inv.content_from p k found.block h g)) d (rw same at t) z)

    pub delete-IsSound :
        (username : Bytes) (path : FilePath) → IsSound dev (delete dev s username path).0
    unfolding delete
    delete-IsSound username [] = (role, inv)
    delete-IsSound username (name ∷ path) = elim (Bool-cases (length s.free == 4095)) [
      | inl all ↦ rw all (role, inv)
      | inr some_used ↦
          rw some_used
            (elim (Option-cases (traverse_fs dev s.disk (pop_back (name ∷ path)) username)) [
              | inl e ↦ rw e (role, inv)
              | inr (dir, e) ↦
                  let (h, same, _) =
                    traverse_fs-holds_inode dev s role inv (pop_back (name ∷ path)) username e in
                  rw e (
                    subst (λ y. IsSound dev (delete_in dev s y (back (name ∷ path)) username).0)
                      (at_disk dev dir same)
                      (delete_in-IsSound dir.block (back (name ∷ path)) username h))
            ])
    ]
