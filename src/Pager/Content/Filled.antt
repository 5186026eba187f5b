-- ===== src/Pager/Content/Filled.antt =====
-- vm_pager.cpp, vm_fault: a page has been read into its new frame.
use os_from_scratch.Common.{
  ℕ, ◌<◌, ◌≤◌, ◌≡◌, ◌≢◌, inl, inr, refl, sym, subst, ap, ◌∙◌, true, false, ltb, ltb→lt, some, ◌==◌,
  update, arith, length, Bool-cases, Option-cases, ==_ne, ==→≡,
}
use os_from_scratch.Pager.{PhysicalPage, Machine, Pager, front}
use os_from_scratch.Pager.Clock.{backing}
use os_from_scratch.Pager.Fault.{ppn_of}
use os_from_scratch.Pager.Frames.Give.{Given-Framed}
use os_from_scratch.Pager.Frames.Replace.{Given}
use os_from_scratch.Pager.Sound.{IsSound}
use os_from_scratch.Pager.Content.{IsApart, IsCoherent}
use os_from_scratch.Pager.Content.Kept.{Differ, Given-Kept, Given-kept-read}

module _ (m : Machine) where
  open m use {Page, Files, zero_page, file_read, file_of}

  abbrev pub filled : Pager Page Files → ℕ → Page → Pager Page Files
  filled t p x = record t { memory = update t.memory (ppn_of (t.pages p)) x }

  -- The page `p` was read into the frame that it was given.
  module _ {cap : ℕ} (s : Pager Page Files) (h : IsSound cap s) (k : IsCoherent m s) (p : ℕ)
      (l : p < s.next_page) (r : (s.pages p).resident ≡ false)
      (own : (q : ℕ) → q < s.next_page → p ≢ q → Differ m (s.pages p) (s.pages q))
      (t : Pager Page Files) (g : Given m cap s p t) (x : Page)
      (read : file_read t.files (backing (s.pages p)) (front (s.pages p).blocks) ≡ some x) where
    in_frame : (q : ℕ) → ppn_of (t.pages q) ≢ 0 → q < s.next_page
    in_frame q z = elim (Bool-cases (ltb q s.next_page)) [
      | inl y ↦ ltb→lt q s.next_page y
      | inr y ↦
          absurd
            (z (ground (arith, g.frames.fresh q (ground (arith, ap (λ u. u.next_page) g.only)))))
    ]

    same_place :
        (q : ℕ)
        → (backing (t.pages q) ≡ backing (s.pages q)) × ((t.pages q).blocks ≡ (s.pages q).blocks)
    same_place q = elim (Bool-cases (q == p)) [
      | inl y ↦
          subst
            (λ z.
              (backing (t.pages z) ≡ backing (s.pages z))
              × ((t.pages z).blocks ≡ (s.pages z).blocks))
            (sym (==→≡ q p y)) (ap backing g.mine, ap (λ v. v.blocks) g.mine)
      | inr y ↦ let o = Given-Kept m s p t g q (ground arith) in (o.same_backing, o.same_blocks)
    ]

    kept_frame : (e : ℕ) → e ≢ p → ppn_of (s.pages e) ≡ 0 → ppn_of (t.pages e) ≡ 0
    kept_frame e n z = elim (Option-cases (t.pages e).physical_page) [
      | inl y ↦ ground arith
      | inr (f, y) ↦
          let (f0, y0, e1, e2) = (Given-Kept m s p t g e n).same_frame f y in
          ground (arith, y, y0, e1)
    ]

    moved-Differ : (e q : ℕ) → Differ m (s.pages e) (s.pages q) → Differ m (t.pages e) (t.pages q)
    moved-Differ e q (inl y) =
        inl (λ w. y (ap file_of (sym (same_place e).0) ∙ w ∙ ap file_of (same_place q).0))
    moved-Differ e q (inr y) =
        inr (λ w. y (ap front (sym (same_place e).1) ∙ w ∙ ap front (same_place q).1))

    same_read :
        (e : ℕ)
        → file_read t.files (backing (t.pages e)) (front (t.pages e).blocks)
          ≡ file_read t.files (backing (s.pages e)) (front (s.pages e).blocks)
    same_read e =
        ap (λ b. file_read t.files b (front (t.pages e).blocks)) (same_place e).0
        ∙ ap (λ b. file_read t.files (backing (s.pages e)) (front b)) (same_place e).1

    BackedAt : ℕ → Type 0
    BackedAt e =
        (f : PhysicalPage)
        → (t.pages e).physical_page ≡ some f
        → f.ppn ≢ 0
        → (y : Page) × (file_read t.files (backing (t.pages e)) (front (t.pages e).blocks) ≡ some y)
          × (f.dirty ≡ false → y ≡ (filled t p x).memory f.ppn)

    backed_mine : BackedAt p
    unfolding BackedAt
    backed_mine f y z = (x, same_read p ∙ read, λ d. ground (arith, y))

    backed_other : (e : ℕ) → e ≢ p → BackedAt e
    unfolding BackedAt
    backed_other e n f y z =
        let o = Given-Kept m s p t g e n in
        let (f0, y0, e1, e2) = o.same_frame f y in
        let (x0, r0, c0) = k.backed e f0 y0 (λ w. z (sym e1 ∙ w)) in
        let pos : ppn_of (t.pages e) ≢ 0 = ground (arith, y) in
        let apart : f.ppn ≢ ppn_of (t.pages p) =
          λ w. n (g.frames.unshared e p pos (ground (arith, y))) in
        (
          x0,
          same_read e ∙ Given-kept-read m s p t g e (k.apart e (in_frame e pos)) n pos ∙ r0,
          λ d.
              c0 (e2 ∙ d)
              ∙ ap s.memory e1
              ∙ ap (λ u. u.memory f.ppn) (sym g.only)
              ∙ rw (==_ne f.ppn (ppn_of (t.pages p)) apart) refl,
        )

    filled-IsApart : (q : ℕ) → q < s.next_page → IsApart m (filled t p x) q
    filled-IsApart q b e n z = elim (Bool-cases (e == p)) [
      | inl a ↦
          let same = ==→≡ e p a in
          moved-Differ e q
            (subst (λ w. Differ m (s.pages w) (s.pages q)) (sym same) (own q b (λ w. n (same ∙ w))))
      | inr a ↦
          moved-Differ e q
            (k.apart q b e n (λ w. z (ground (arith, kept_frame e (ground arith) w))))
    ]

    still_unshared :
        (q : ℕ)
        → (t.pages q).resident ≡ true
        → ppn_of (t.pages q) ≡ 0
        → length (t.pages q).blocks ≤ 1
    still_unshared q a z =
        let n : q ≢ p =
          λ y. g.ppn_pos (ap ppn_of (sym g.mine) ∙ ap (λ w. ppn_of (t.pages w)) (sym y) ∙ z) in
        let o = Given-Kept m s p t g q n in
        elim (Option-cases (t.pages q).physical_page) [
          | inl y ↦
              absurd (ground (arith, (Given-Framed m s p t h.framed.resident_iff g).resident_iff q))
          | inr (f, y) ↦
              let (f0, y0, e1, e2) = o.same_frame f y in
              subst (λ b. length b ≤ 1) (sym o.same_blocks)
                (k.unshared q (o.same_resident a) (ground (arith, y, y0, e1)))
        ]

    pub filled-IsCoherent : IsCoherent m (filled t p x)
    unfolding BackedAt
    filled-IsCoherent = record {
      backed = λ e. elim (Bool-cases (e == p)) [
        | inl a ↦ subst BackedAt (sym (==→≡ e p a)) backed_mine
        | inr a ↦ backed_other e (ground arith)
      ];
      apart = λ q b. filled-IsApart q (omega (arith, b, ap (λ u. u.next_page) g.only));
      zeroed =
          rw (==_ne 0 (ppn_of (t.pages p)) (ground (arith, g.mine, g.ppn_pos)))
            (ap (λ u. u.memory 0) g.only ∙ k.zeroed);
      unshared = λ q a z. still_unshared q a z;
    }
