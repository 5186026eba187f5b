-- ===== src/Pager/Content/Coherent.antt =====
-- vm_pager.cpp, vm_fault: a shared page is read in before it is copied.
use os_from_scratch.Common.{
  ℕ, ◌<◌, ◌≤◌, ◌≡◌, ◌≢◌, inl, inr, refl, sym, subst, ap, ◌∙◌, Bool, true, false, ◌||◌, Option, none,
  some, ◌==◌, update, arith, length, Bool-cases, Option-cases, ==→≡,
}
use os_from_scratch.Pager.{PhysicalPage, Machine, Pager, front}
use os_from_scratch.Pager.Ptes.{update_ptes}
use os_from_scratch.Pager.Clock.{backing, give_new_ppn}
use os_from_scratch.Pager.Fault.{
  ppn_of, needs_frame, fill_frame, load_page, mark_accessed, if_loaded, access_page,
}
use os_from_scratch.Pager.Frames.Give.{give_new_ppn-Given}
use os_from_scratch.Pager.Sound.{IsSound}
use os_from_scratch.Pager.Sound.Access.{needs_frame-ppn_of}
use os_from_scratch.Pager.Content.{IsCoherent}
use os_from_scratch.Pager.Content.Kept.{Differ, Kept, Cleared-Kept, Differ-Kept}
use os_from_scratch.Pager.Content.Filled.{filled, filled-IsCoherent}

module _ (m : Machine) where
  open m use {Page, Files, file_read}

  marked_read-Kept :
      (s : Pager Page Files) (p q : ℕ) (f : PhysicalPage)
      → (s.pages p).physical_page ≡ some f
      → let v = record (s.pages p) {
        physical_page = some (record f { clocked = true; dirty = f.dirty || false });
      } in
        Kept (s.pages q) (update s.pages p v q)
  marked_read-Kept s p q f e = elim (Bool-cases (q == p)) [
    | inl y ↦
        rw (y, ==→≡ q p y)
          (record {
            same_backing = refl;
            same_blocks = refl;
            same_frame = λ f' z. (f, e, ground arith, ground arith);
            same_resident = λ z. z;
          })
    | inr y ↦ rw y (Cleared-Kept _ _ (inl refl))
  ]

  Kept-IsCoherent :
      (s t : Pager Page Files)
      → IsCoherent m s
      → ((q : ℕ) → Kept (s.pages q) (t.pages q) × (ppn_of (t.pages q) ≡ ppn_of (s.pages q)))
      → t.memory ≡ s.memory
      → t.files ≡ s.files
      → t.next_page ≡ s.next_page
      → IsCoherent m t
  Kept-IsCoherent s t k o em ef en = record {
    backed = λ e f y z.
        let (f0, y0, e1, e2) = (o e).0.same_frame f y in
        let (x0, r0, c0) = k.backed e f0 y0 (λ w. z (sym e1 ∙ w)) in
        (
          x0,
          ground (arith, r0, ef, (o e).0.same_backing, (o e).0.same_blocks),
          λ d. c0 (e2 ∙ d) ∙ ap s.memory e1 ∙ ap (λ u. u f.ppn) (sym em),
        );
    apart = λ q b e n z.
        Differ-Kept m (o e).0 (o q).0 (k.apart q (omega (arith, b, en)) e n (λ w. z ((o e).1 ∙ w)));
    zeroed = ap (λ u. u 0) em ∙ k.zeroed;
    unshared = λ q a z.
        subst (λ b. length b ≤ 1) (sym (o q).0.same_blocks)
          (k.unshared q ((o q).0.same_resident a) (sym (o q).1 ∙ z));
  }

  mark_read-IsCoherent :
      (s : Pager Page Files) (p : ℕ) → IsCoherent m s → IsCoherent m (mark_accessed m s p false)
  unfolding mark_accessed update_ptes
  mark_read-IsCoherent s p k = elim (Option-cases (s.pages p).physical_page) [
    | inl e ↦
        rw (mark_accessed, e)
          (record { backed = k.backed; apart = k.apart; zeroed = k.zeroed; unshared = k.unshared })
    | inr (f, e) ↦
        rw (mark_accessed, e)
          (Kept-IsCoherent s _ k (λ q. (marked_read-Kept s p q f e, ground (arith, e))) refl refl
            refl)
  ]

  loads : Pager Page Files → ℕ → Option Page
  loads s p = file_read (give_new_ppn m s p).files (backing (s.pages p)) (front (s.pages p).blocks)

  load_page-some :
      (s : Pager Page Files) (p : ℕ) (x : Page)
      → (s.pages p).resident ≡ false
      → loads s p ≡ some x
      → load_page m s p ≡ (filled m (give_new_ppn m s p) p x, true)
  unfolding load_page fill_frame loads
  load_page-some s p x r e = rw (r, e) refl

  load_page-none :
      (s : Pager Page Files) (p : ℕ)
      → (s.pages p).resident ≡ false
      → loads s p ≡ none
      → (load_page m s p).1 ≡ false
  unfolding load_page fill_frame loads
  load_page-none s p r e = rw (r, e) refl

  if_loaded_flag :
      (t : Pager Page Files × Bool) (p : ℕ) (write_flag : Bool)
      → (if_loaded m t p write_flag).1 ≡ t.1
  unfolding if_loaded
  if_loaded_flag (s, true) p write_flag = refl
  if_loaded_flag (s, false) p write_flag = refl

  module _ {cap : ℕ} (c : 2 ≤ cap) (s : Pager Page Files) (h : IsSound cap s) (k : IsCoherent m s)
      (p : ℕ) (l : p < s.next_page) (b : 1 < length (s.pages p).blocks)
      (own : (q : ℕ) → q < s.next_page → p ≢ q → Differ m (s.pages p) (s.pages q)) where
    not_null : ppn_of (s.pages p) ≡ 0 → (s.pages p).resident ≡ false
    not_null z = elim (Bool-cases (s.pages p).resident) [
      | inl e ↦ absurd (omega (arith, k.unshared p e z, b))
      | inr e ↦ e
    ]

    load_page-IsCoherent :
        ppn_of (s.pages p) ≡ 0
        → (load_page m s p).1 ≡ true
        → IsCoherent m (if_loaded m (load_page m s p) p false).0
    unfolding if_loaded loads
    load_page-IsCoherent z a =
        let r = not_null z in
        elim (Option-cases (loads s p)) [
          | inl y ↦ absurd (ground (arith, a, load_page-none s p r y))
          | inr (x, y) ↦
              subst (λ t. IsCoherent m (if_loaded m t p false).0) (sym (load_page-some s p x r y))
                (mark_read-IsCoherent (filled m (give_new_ppn m s p) p x) p (
                  filled-IsCoherent m s h k p l r own (give_new_ppn m s p)
                    (give_new_ppn-Given m s h.framed.frames p l z c) x y))
        ]

    -- A shared page that is read in is coherent with the others. It differs from them in its block.
    pub read_page-IsCoherent :
        (access_page m s p false).1 ≡ true → IsCoherent m (access_page m s p false).0
    unfolding access_page if_loaded
    read_page-IsCoherent a = elim (Bool-cases (needs_frame (s.pages p))) [
      | inl e ↦
          let z = needs_frame-ppn_of (s.pages p) (h.framed.resident_iff p) e in
          rw (access_page, e)
            (load_page-IsCoherent z
              (sym (if_loaded_flag (load_page m s p) p false) ∙ rw (access_page, e) at a))
      | inr e ↦ rw (access_page, e) (mark_read-IsCoherent s p k)
    ]
