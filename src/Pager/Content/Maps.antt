-- ===== src/Pager/Content/Maps.antt =====
-- vm_pager.cpp, vm_fault below the copy-on-write: what it leaves alone.
use os_from_scratch.Common.{
  ℕ, ◌<◌, ◌≤◌, ◌≡◌, inl, inr, refl, ap, ◌∙◌, Bool, true, false, Option, none, some, ◌==◌, arith,
  length, Bool-cases, Option-cases, both_branches,
}
use os_from_scratch.Pager.{VirtualPage, Machine, Pager, remove_from_filename_block}
use os_from_scratch.Pager.Ptes.{update_ptes}
use os_from_scratch.Pager.Clock.{give_new_ppn, return_frame, return_ppn_remove_from_clock}
use os_from_scratch.Pager.Fault.{
  ppn_of, needs_frame, access_page, mark_accessed, if_loaded, load_page, fill_frame,
}
use os_from_scratch.Pager.Frames.Give.{give_new_ppn-Given}
use os_from_scratch.Pager.Sound.{IsSound}
use os_from_scratch.Pager.Sound.Access.{needs_frame-ppn_of}

module _ {Page Files : Type 0} where
  abbrev pub SameMaps : Pager Page Files → Pager Page Files → Type 0
  SameMaps s t =
      (t.translate_va ≡ s.translate_va)
      × (t.current_pid ≡ s.current_pid)
      × (t.next_page ≡ s.next_page)

  SameMaps-trans : (s t u : Pager Page Files) → SameMaps s t → SameMaps t u → SameMaps s u
  SameMaps-trans s t u (a, b, c) (a', b', c') = (a' ∙ a, b' ∙ b, c' ∙ c)

  -- A page that was accessed is in memory, with the same blocks and entries.
  abbrev pub IsAccessed : Pager Page Files → Pager Page Files → ℕ → Type 0
  IsAccessed s t p =
      ((t.pages p).resident ≡ true)
      × ((t.pages p).blocks ≡ (s.pages p).blocks)
      × ((t.pages p).affiliated ≡ (s.pages p).affiliated)

module _ (m : Machine) where
  open m use {Page, Files}

  mark_accessed-SameMaps :
      (s : Pager Page Files) (p : ℕ) (write_flag : Bool)
      → SameMaps s (mark_accessed m s p write_flag)
  unfolding mark_accessed update_ptes
  mark_accessed-SameMaps s p write_flag = elim (Option-cases (s.pages p).physical_page) [
    | inl e ↦ rw (mark_accessed, e) (refl, refl, refl)
    | inr (f, e) ↦ rw (mark_accessed, e) (refl, refl, refl)
  ]

  mark_accessed-IsAccessed :
      (s : Pager Page Files) (p : ℕ) (write_flag : Bool)
      → (s.pages p).resident ≡ true
      → IsAccessed s (mark_accessed m s p write_flag) p
  unfolding mark_accessed update_ptes
  mark_accessed-IsAccessed s p write_flag r = elim (Option-cases (s.pages p).physical_page) [
    | inl e ↦ rw (mark_accessed, e) (r, refl, refl)
    | inr (f, e) ↦ rw (mark_accessed, e) (ground (arith, r), ground arith, ground arith)
  ]

  return_ppn-SameMaps :
      (s : Pager Page Files) (p : ℕ) → SameMaps s (return_ppn_remove_from_clock m s p)
  unfolding return_ppn_remove_from_clock return_frame update_ptes
  return_ppn-SameMaps s p = elim (Option-cases (s.pages p).physical_page) [
    | inl e ↦ rw (return_ppn_remove_from_clock, e) (refl, refl, refl)
    | inr (f, e) ↦ rw (return_ppn_remove_from_clock, e) (refl, refl, refl)
  ]

  fill_frame-SameMaps :
      (s : Pager Page Files) (p : ℕ) (v : VirtualPage) (x : Option Page)
      → SameMaps s (fill_frame m s p v x).0
  unfolding fill_frame remove_from_filename_block
  fill_frame-SameMaps s p v none =
      both_branches (λ (u : Pager Page Files). SameMaps s (return_ppn_remove_from_clock m u p))
        (length v.affiliated == 1) (return_ppn-SameMaps (remove_from_filename_block s v) p)
        (return_ppn-SameMaps s p)
  fill_frame-SameMaps s p v (some x) = (refl, refl, refl)

  if_loaded-SameMaps :
      (t : Pager Page Files × Bool) (p : ℕ) (write_flag : Bool)
      → SameMaps t.0 (if_loaded m t p write_flag).0
  unfolding if_loaded
  if_loaded-SameMaps (s, true) p write_flag = mark_accessed-SameMaps s p write_flag
  if_loaded-SameMaps (s, false) p write_flag = (refl, refl, refl)

  if_loaded-IsAccessed :
      (s : Pager Page Files) (t : Pager Page Files × Bool) (p : ℕ) (write_flag : Bool)
      → (t.1 ≡ true → IsAccessed s t.0 p)
      → (if_loaded m t p write_flag).1 ≡ true
      → IsAccessed s (if_loaded m t p write_flag).0 p
  unfolding if_loaded
  if_loaded-IsAccessed s (t, true) p write_flag h a =
      let k = mark_accessed-IsAccessed t p write_flag (h refl).0 in
      (k.0, k.1 ∙ (h refl).1, k.2 ∙ (h refl).2)
  if_loaded-IsAccessed s (t, false) p write_flag h a = absurd (ground arith)

  fill_frame-IsAccessed :
      (s : Pager Page Files) (p : ℕ) (x : Option Page)
      → (s.pages p).resident ≡ true
      → (fill_frame m s p (s.pages p) x).1 ≡ true
      → IsAccessed s (fill_frame m s p (s.pages p) x).0 p
  unfolding fill_frame
  fill_frame-IsAccessed s p none r a = absurd (ground arith)
  fill_frame-IsAccessed s p (some x) r a = (r, refl, refl)

  module _ {cap : ℕ} (c : 2 ≤ cap) (s : Pager Page Files) (h : IsSound cap s) (p : ℕ)
      (l : p < s.next_page) where
    load_page-SameMaps : ppn_of (s.pages p) ≡ 0 → SameMaps s (load_page m s p).0
    unfolding load_page
    load_page-SameMaps z =
        let g = give_new_ppn-Given m s h.framed.frames p l z c in
        SameMaps-trans s (give_new_ppn m s p) (load_page m s p).0
          (
            ap (λ u. u.translate_va) g.only,
            ap (λ u. u.current_pid) g.only,
            ap (λ u. u.next_page) g.only,
          )
          (fill_frame-SameMaps (give_new_ppn m s p) p _ _)

    pub load_page-IsAccessed :
        ppn_of (s.pages p) ≡ 0 → (load_page m s p).1 ≡ true → IsAccessed s (load_page m s p).0 p
    unfolding load_page
    load_page-IsAccessed z a =
        let g = give_new_ppn-Given m s h.framed.frames p l z c in
        let k = fill_frame-IsAccessed (give_new_ppn m s p) p _ (ap (λ v. v.resident) g.mine) a in
        (k.0, k.1 ∙ ap (λ v. v.blocks) g.mine, k.2 ∙ ap (λ v. v.affiliated) g.mine)

    pub access_page-SameMaps : (write_flag : Bool) → SameMaps s (access_page m s p write_flag).0
    unfolding access_page
    access_page-SameMaps write_flag = elim (Bool-cases (needs_frame (s.pages p))) [
      | inl e ↦
          rw (access_page, e)
            (SameMaps-trans s (load_page m s p).0 (if_loaded m (load_page m s p) p write_flag).0
              (load_page-SameMaps (needs_frame-ppn_of (s.pages p) (h.framed.resident_iff p) e))
              (if_loaded-SameMaps (load_page m s p) p write_flag))
      | inr e ↦ rw (access_page, e) (if_loaded-SameMaps (s, true) p write_flag)
    ]

    pub access_page-IsAccessed :
        (write_flag : Bool)
        → (access_page m s p write_flag).1 ≡ true
        → IsAccessed s (access_page m s p write_flag).0 p
    unfolding access_page
    access_page-IsAccessed write_flag a = elim (Bool-cases (needs_frame (s.pages p))) [
      | inl e ↦
          rw (access_page, e)
            (if_loaded-IsAccessed s (load_page m s p) p write_flag
              (load_page-IsAccessed (needs_frame-ppn_of (s.pages p) (h.framed.resident_iff p) e))
              (rw (access_page, e) at a))
      | inr e ↦
          rw (access_page, e)
            (if_loaded-IsAccessed s (s, true) p write_flag (λ y. (ground arith, refl, refl)) refl)
    ]
