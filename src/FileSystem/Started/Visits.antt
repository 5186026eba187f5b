-- ===== src/FileSystem/Started/Visits.antt =====
-- filesystem.cpp, initial_traverse_helper: the loop over the entries and blocks of a directory.
use os_from_scratch.Common.{
  ℕ, ◌≡◌, ◌≢◌, inl, inr, refl, true, List, [], ◌∷◌, ◌==◌, arith, Bool-cases, subst, ==→≡,
}
use os_from_scratch.Disk.{Device, Direntry}
use os_from_scratch.FileSystem.Traverse.{read_direntries}
use os_from_scratch.FileSystem.Init.{
  Checked, done, contains, mark, visit_entry, visit_entries, visit_blocks,
}
use os_from_scratch.FileSystem.Started.Walk.{
  lists, Checked-cases, Sub, New, New-trans, mark-Sub, mark-New,
}

-- An inode was inserted and visited, and the blocks that its visit inserted are in use.
abbrev pub Seen : (List ℕ → ℕ → Checked (List ℕ)) → List ℕ → ℕ → Type 0
Seen visit w c =
    (contains w c ≡ true) × (v : List ℕ) × (v' : List ℕ) × (visit v c ≡ done v') × Sub v' w

Seen-Sub :
    (visit : List ℕ → ℕ → Checked (List ℕ)) (v w : List ℕ) (c : ℕ)
    → Sub v w
    → Seen visit v c
    → Seen visit w c
Seen-Sub visit v w c s (h, x, x', e, t) = (s c h, x, x', e, λ a q. s a (t a q))

module _ (visit : List ℕ → ℕ → Checked (List ℕ)) (P : ℕ → Type 0) (Q : ℕ → Type 0)
    (used_inode : (c : ℕ) → Q c → P c)
    (grows : (u : List ℕ) (b : ℕ) (v : List ℕ) → visit u b ≡ done v → Sub u v)
    (finds : (u : List ℕ) (b : ℕ) (v : List ℕ) → Q b → visit u b ≡ done v → New P u v) where
  visit_entry_lem :
      (u : List ℕ) (b : ℕ) (v : List ℕ)
      → visit_entry visit u b ≡ done v
      → Sub u v × ((b ≢ 0 → Q b) → New P u v) × (b ≢ 0 → Seen visit v b)
  unfolding visit_entry
  visit_entry_lem u b v e = elim (Bool-cases (b == 0)) [
    | inl z ↦ (
      λ c h. ground (arith, e),
      λ q c h. inl (ground (arith, e)),
      λ n. absurd (ground (arith, n)),
    )
    | inr z ↦ elim (Checked-cases (mark u b)) [
      | inl (w, k) ↦
          let e' : visit w b ≡ done v = ground (arith, e, k, z) in
          let m = mark-Sub u b k in
          let g = grows w b v e' in
          (
            λ c h. g c (m.0 c h),
            λ q.
                let qb = q (ground arith) in
                New-trans P u w v (mark-New P u b (used_inode b qb) k) (finds w b v qb e'),
            λ n. (g b m.1, w, v, e', λ c h. h),
          )
      | inr (inl k) ↦ absurd (ground arith)
      | inr (inr k) ↦ absurd (ground arith)
    ]
  ]

  pub visit_entries_lem :
      (u : List ℕ) (es : List Direntry) (v : List ℕ)
      → visit_entries visit u es ≡ done v
      → Sub u v
        × (((c : ℕ) → lists es c ≡ true → c ≢ 0 → Q c) → New P u v)
        × ((c : ℕ) → lists es c ≡ true → c ≢ 0 → Seen visit v c)
  unfolding visit_entries lists
  visit_entries_lem u [] v e =
      (λ c h. ground (arith, e), λ q c h. inl (ground (arith, e)), λ c h. absurd (ground arith))
  visit_entries_lem u (x ∷ es) v e = elim (Checked-cases (visit_entry visit u x.inode_block)) [
    | inl (w, k) ↦
        let r = visit_entry_lem u x.inode_block w k in
        let t = visit_entries_lem w es v (ground arith) in
        (
          λ c h. t.0 c (r.0 c h),
          λ q.
              New-trans P u w v (r.1 (q x.inode_block (ground arith)))
                (t.1 (λ c h. q c (ground arith))),
          λ c h n. elim (Bool-cases (x.inode_block == c)) [
            | inl y ↦
                subst (λ a. Seen visit v a) (==→≡ x.inode_block c y)
                  (Seen-Sub visit w v x.inode_block t.0 (r.2 (ground (arith, n))))
            | inr y ↦ t.2 c (ground arith) n
          ],
        )
    | inr (inl k) ↦ absurd (ground arith)
    | inr (inr k) ↦ absurd (ground arith)
  ]

  module _ (dev : Device) where
    open dev use {Disk}

    pub visit_blocks_lem :
        (d : Disk) (u bs v : List ℕ)
        → visit_blocks dev visit d u bs ≡ done v
        → Sub u v
          × (((k c : ℕ)
                → contains bs k ≡ true
                → lists (read_direntries dev d k) c ≡ true
                → c ≢ 0
                → Q c)
              → New P u v)
          × ((k c : ℕ)
              → contains bs k ≡ true
              → lists (read_direntries dev d k) c ≡ true
              → c ≢ 0
              → Seen visit v c)
    unfolding visit_blocks contains
    visit_blocks_lem d u [] v e =
        (λ c h. ground (arith, e), λ q c h. inl (ground (arith, e)), λ k c h. absurd (ground arith))
    visit_blocks_lem d u (b ∷ bs) v e =
        elim (Checked-cases (visit_entries visit u (read_direntries dev d b))) [
          | inl (w, k) ↦
              let r = visit_entries_lem u (read_direntries dev d b) w k in
              let t = visit_blocks_lem d w bs v (ground arith) in
              (
                λ c h. t.0 c (r.0 c h),
                λ q.
                    New-trans P u w v (r.1 (λ c. q b c (ground arith)))
                      (t.1 (λ j c h. q j c (ground arith))),
                λ j c h l n. elim (Bool-cases (j == b)) [
                  | inl y ↦ Seen-Sub visit w v c t.0 (
                      r.2 c (subst (λ a. lists (read_direntries dev d a) c ≡ true) (==→≡ j b y) l)
                        n)
                  | inr y ↦ t.2 j c (ground arith) l n
                ],
              )
          | inr (inl k) ↦ absurd (ground arith)
          | inr (inr k) ↦ absurd (ground arith)
        ]

-- The loops only insert, whatever the inodes are.
module _ (visit : List ℕ → ℕ → Checked (List ℕ))
    (grows : (u : List ℕ) (b : ℕ) (v : List ℕ) → visit u b ≡ done v → Sub u v) where
  pub visit_entry-Sub : (u : List ℕ) (b : ℕ) (v : List ℕ) → visit_entry visit u b ≡ done v → Sub u v
  visit_entry-Sub u b v e =
      (visit_entry_lem visit (λ c. c ≡ c) (λ c. ⊥) (λ c h. refl) grows (λ x c y q. absurd q) u b v
        e).0

  pub visit_entries-Sub :
      (u : List ℕ) (es : List Direntry) (v : List ℕ) → visit_entries visit u es ≡ done v → Sub u v
  visit_entries-Sub u es v e =
      (visit_entries_lem visit (λ c. c ≡ c) (λ c. ⊥) (λ c h. refl) grows (λ x c y q. absurd q) u es
        v e).0
