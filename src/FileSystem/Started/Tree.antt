-- ===== src/FileSystem/Started/Tree.antt =====
-- filesystem.cpp, initial_traverse_helper: the blocks in use are those that the walk inserts.
use os_from_scratch.Common.{
  ℕ, zero, suc, ◌≡◌, ◌≢◌, ◌⊎◌, inl, inr, refl, true, List, [], ◌==◌, leb, arith, Bool-cases, subst,
}
use os_from_scratch.Params.{fs_disksize}
use os_from_scratch.Disk.{Device, used}
use os_from_scratch.FileSystem.Traverse.{read_inode, read_direntries}
use os_from_scratch.FileSystem.Init.{
  Checked, done, contains, mark_all, visit_inode, initial_traverse_helper,
}
use os_from_scratch.FileSystem.Started.Walk.{
  lists, Checked-cases, Sub, New, New-trans, mark_all-Sub, mark_all-New,
}
use os_from_scratch.FileSystem.Started.Visits.{Seen, visit_blocks_lem}

module _ (dev : Device) where
  open dev use {Disk}

  -- The blocks that are inodes of the tree below the root, which is in block 0.
  pub data IsInode (d : Disk) : ℕ → Type 0 where
    root : IsInode d 0
    child :
        (b k c : ℕ)
        → IsInode d b
        → (read_inode dev d b).type ≡ b'd'
        → contains (used (read_inode dev d b)) k ≡ true
        → lists (read_direntries dev d k) c ≡ true
        → c ≢ 0
        → IsInode d c

  -- A block is in use when it is an inode of the tree or a data block of one.
  abbrev pub InUse : Disk → ℕ → Type 0
  InUse d c =
      IsInode d c ⊎ ((b : ℕ) × IsInode d b × (contains (used (read_inode dev d b)) c ≡ true))

  -- What the visit of inode `b` needs of the visits of its children, and what it has then done.
  abbrev Grows : Disk → (List ℕ → ℕ → Checked (List ℕ)) → Type 0
  Grows d visit =
      (u : List ℕ) (b : ℕ) (v : List ℕ)
      → visit u b ≡ done v
      → Sub u v × (IsInode d b → New (InUse d) u v)

  -- The walk met inode `b`: its blocks were inserted, and so were its children, and each was visited.
  abbrev Met : Disk → (List ℕ → ℕ → Checked (List ℕ)) → List ℕ → ℕ → Type 0
  Met d visit w b =
      ((c : ℕ) → contains (used (read_inode dev d b)) c ≡ true → contains w c ≡ true)
      × ((k c : ℕ)
          → (read_inode dev d b).type ≡ b'd'
          → contains (used (read_inode dev d b)) k ≡ true
          → lists (read_direntries dev d k) c ≡ true
          → c ≢ 0
          → Seen visit w c)

  visit_inode_lem :
      (visit : List ℕ → ℕ → Checked (List ℕ)) (d : Disk) (u v w : List ℕ) (b : ℕ)
      → Grows d visit
      → mark_all u (used (read_inode dev d b)) ≡ done v
      → visit_inode dev visit d v (read_inode dev d b) ≡ done w
      → Sub u w × (IsInode d b → New (InUse d) u w) × Met d visit w b
  unfolding visit_inode
  visit_inode_lem visit d u v w b grows k e =
      let bs = used (read_inode dev d b) in
      let m = mark_all-Sub u bs k in
      let new : IsInode d b → New (InUse d) u v =
        λ i. mark_all-New (InUse d) u bs (λ c h. inr (b, i, h)) k in
      elim (Bool-cases ((read_inode dev d b).type == b'f')) [
        | inl f ↦
            let same : v ≡ w = ground (arith, e, f) in
            (
              subst (λ x. Sub u x) same m.0,
              λ i. subst (λ x. New (InUse d) u x) same (new i),
              (
                subst (λ x. (c : ℕ) → contains bs c ≡ true → contains x c ≡ true) same m.1,
                λ j c t. absurd (ground (arith, t, f)),
              ),
            )
        | inr f ↦ elim (Bool-cases ((read_inode dev d b).type == b'd')) [
          | inl t ↦
              let r =
                visit_blocks_lem visit (InUse d) (IsInode d) (λ c q. inl q)
                  (λ x c y h. (grows x c y h).0) (λ x c y q h. (grows x c y h).1 q) dev d v bs w
                  (ground (arith, e, f, t)) in
              (
                λ c h. r.0 c (m.0 c h),
                λ i.
                    New-trans (InUse d) u v w (new i)
                      (r.1 (λ j c h l n. child b j c i (ground (arith, t)) h l n)),
                (λ c h. r.0 c (m.1 c h), λ j c q h l n. r.2 j c h l n),
              )
          | inr t ↦ absurd (ground (arith, e, f, t))
        ]
      ]

  walk_grown :
      (fuel : ℕ) (d : Disk) (u : List ℕ) (b : ℕ) (w : List ℕ)
      → Grows d (initial_traverse_helper dev fuel d)
      → initial_traverse_helper dev (suc fuel) d u b ≡ done w
      → Sub u w × (IsInode d b → New (InUse d) u w) × Met d (initial_traverse_helper dev fuel d) w b
  unfolding initial_traverse_helper
  walk_grown fuel d u b w grows e = elim (Bool-cases (leb fs_disksize b)) [
    | inl o ↦ absurd (ground (arith, e, o))
    | inr o ↦ elim (Checked-cases (mark_all u (used (read_inode dev d b)))) [
      | inl (v, k) ↦
          visit_inode_lem (initial_traverse_helper dev fuel d) d u v w b grows k
            (ground (arith, e, o, k))
      | inr (inl k) ↦ absurd (ground (arith, e, o, k))
      | inr (inr k) ↦ absurd (ground (arith, e, o, k))
    ]
  ]

  walk-Grows : (fuel : ℕ) (d : Disk) → Grows d (initial_traverse_helper dev fuel d)
  unfolding initial_traverse_helper
  walk-Grows zero d u b v e = absurd (ground (arith, e))
  walk-Grows (suc fuel) d u b v e =
      let r = walk_grown fuel d u b v (walk-Grows fuel d) e in (r.0, r.1)

  pub walk-Sub :
      (fuel : ℕ) (d : Disk) (u : List ℕ) (b : ℕ) (v : List ℕ)
      → initial_traverse_helper dev fuel d u b ≡ done v
      → Sub u v
  walk-Sub fuel d u b v e = (walk-Grows fuel d u b v e).0

  -- An inode that a walk visited, and what was inserted by the end of it.
  abbrev Walked : Disk → List ℕ → ℕ → Type 0
  Walked d w b =
      (fuel : ℕ) × (u : List ℕ) × (v : List ℕ) × (initial_traverse_helper dev fuel d u b ≡ done v)
      × Sub v w

  Walked-Met :
      (d : Disk) (w : List ℕ) (b : ℕ)
      → Walked d w b
      → ((c : ℕ) → contains (used (read_inode dev d b)) c ≡ true → contains w c ≡ true)
        × ((k c : ℕ)
            → (read_inode dev d b).type ≡ b'd'
            → contains (used (read_inode dev d b)) k ≡ true
            → lists (read_direntries dev d k) c ≡ true
            → c ≢ 0
            → (contains w c ≡ true) × Walked d w c)
  unfolding initial_traverse_helper
  Walked-Met d w b (zero, u, v, e, s) = absurd (ground (arith, e))
  Walked-Met d w b (suc fuel, u, v, e, s) =
      let r = walk_grown fuel d u b v (walk-Grows fuel d) e in
      (
        λ c h. s c (r.2.0 c h),
        λ k c t h l n.
            let (x, u', v', e', s') = r.2.1 k c t h l n in
            (s c x, (fuel, u', v', e', λ a q. s a (s' a q))),
      )

  inode-Walked :
      (d : Disk) (w : List ℕ) (c : ℕ)
      → Walked d w 0
      → IsInode d c
      → ((c ≢ 0) → contains w c ≡ true) × Walked d w c
  inode-Walked d w _ r root = (λ n. absurd (n refl), r)
  inode-Walked d w _ r (child b k c i t h l n) =
      let x = (Walked-Met d w b (inode-Walked d w b r i).1).1 k c t h l n in (λ m. x.0, x.1)

  -- After a walk from the root has ended, what it inserted is what is in use, the root aside.
  pub walk-InUse :
      (fuel : ℕ) (d : Disk) (w : List ℕ) (c : ℕ)
      → initial_traverse_helper dev fuel d [] 0 ≡ done w
      → (contains w c ≡ true → InUse d c) × (c ≢ 0 → InUse d c → contains w c ≡ true)
  unfolding contains
  walk-InUse fuel d w c e =
      let r : Walked d w 0 = (fuel, [], w, e, λ a h. h) in
      (
        λ h. elim ((walk-Grows fuel d [] 0 w e).1 root c h) [
          | inl x ↦ absurd (ground (arith, x))
          | inr x ↦ x
        ],
        λ n i. elim i [
          | inl x ↦ (inode-Walked d w c r x).0 n
          | inr (b, x, h) ↦ (Walked-Met d w b (inode-Walked d w b r x).1).0 c h
        ],
      )
