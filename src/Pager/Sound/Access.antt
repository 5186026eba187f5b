-- ===== src/Pager/Sound/Access.antt =====
-- vm_pager.cpp, vm_fault where a page gets a frame and is accessed: the frames and the maps.
use os_from_scratch.Common.{
  ℕ, ◌<◌, ◌≤◌, ◌≡◌, ◌≢◌, inl, inr, refl, ap, Bool, true, false, Option, none, some, ◌==◌, length,
  arith, Bool-cases, Option-cases,
}
use os_from_scratch.Pager.{VirtualPage, Machine, Pager, remove_from_filename_block}
use os_from_scratch.Pager.Ptes.{update_ptes}
use os_from_scratch.Pager.Clock.{return_frame, return_ppn_remove_from_clock, give_new_ppn}
use os_from_scratch.Pager.Fault.{
  ppn_of, needs_frame, fill_frame, load_page, mark_accessed, if_loaded, access_page,
}
use os_from_scratch.Pager.Frames.{Resident}
use os_from_scratch.Pager.Frames.Changes.{same-IsFramed, give-IsFramed}
use os_from_scratch.Pager.Frames.Give.{give_new_ppn-Given, Given-Framed}
use os_from_scratch.Pager.Sound.{
  IsSound, StaysSound, StaysSound-trans, same_maps-IsSound, pte-IsSound,
}

-- A page has no frame if vm_fault gives it one.
pub needs_frame-ppn_of : (v : VirtualPage) → Resident v → needs_frame v ≡ true → ppn_of v ≡ 0
needs_frame-ppn_of v r e = ground arith

module _ (m : Machine) {cap : ℕ} where
  open m use {Page, Files}

  pub return_ppn-IsSound :
      (s : Pager Page Files) (p : ℕ)
      → IsSound cap s
      → ppn_of (s.pages p) ≢ 0
      → StaysSound cap s (return_ppn_remove_from_clock m s p)
  unfolding return_ppn_remove_from_clock return_frame update_ptes
  return_ppn-IsSound s p h z = elim (Option-cases (s.pages p).physical_page) [
    | inl e ↦ absurd (ground arith)
    | inr (f, e) ↦
        rw (return_ppn_remove_from_clock, e)
          (
            record {
              framed = give-IsFramed h.framed p f.ppn _ (ground arith) (ground arith) refl refl;
              mapped = h.mapped;
              named = h.named;
            },
            omega arith,
          )
  ]

  pub give_new_ppn-IsSound :
      (s : Pager Page Files) (p : ℕ)
      → IsSound cap s
      → 2 ≤ cap
      → p < s.next_page
      → ppn_of (s.pages p) ≡ 0
      → StaysSound cap s (give_new_ppn m s p)
  give_new_ppn-IsSound s p h c l z =
      let g = give_new_ppn-Given m s h.framed.frames p l z c in
      same_maps-IsSound s h (give_new_ppn m s p)
        (Given-Framed m s p (give_new_ppn m s p) h.framed.resident_iff g)
        (ap (λ t. t.translate_va) g.only) (omega (arith, ap (λ t. t.next_page) g.only))
        (λ name block p. g.forgets name block)

  mark_accessed-IsSound :
      (s : Pager Page Files) (p : ℕ) (write_flag : Bool)
      → IsSound cap s
      → StaysSound cap s (mark_accessed m s p write_flag)
  unfolding mark_accessed update_ptes
  mark_accessed-IsSound s p write_flag h = elim (Option-cases (s.pages p).physical_page) [
    | inl e ↦ rw (mark_accessed, e) (pte-IsSound s h s.process_table true, omega arith)
    | inr (f, e) ↦
        rw (mark_accessed, e)
          (
            record {
              framed =
                  same-IsFramed h.framed p _ (ground arith)
                    (ground (arith, h.framed.resident_iff p))
                    (λ l. absurd (ground (arith, h.framed.frames.fresh p l)));
              mapped = h.mapped;
              named = h.named;
            },
            omega arith,
          )
  ]

  removed-IsSound :
      (s : Pager Page Files) (v : VirtualPage)
      → IsSound cap s
      → IsSound cap (remove_from_filename_block s v)
  unfolding remove_from_filename_block
  removed-IsSound s v h = record {
    framed = h.framed;
    mapped = h.mapped;
    named = λ name block {p} y. ground (arith, h.named name block {p = p});
  }

  fill_frame-IsSound :
      (s : Pager Page Files) (p : ℕ) (v : VirtualPage) (x : Option Page)
      → IsSound cap s
      → ppn_of (s.pages p) ≢ 0
      → StaysSound cap s (fill_frame m s p v x).0
  unfolding fill_frame remove_from_filename_block
  fill_frame-IsSound s p v none h z = elim (Bool-cases (length v.affiliated == 1)) [
    | inl e ↦
        rw (fill_frame, e)
          (return_ppn-IsSound (remove_from_filename_block s v) p (removed-IsSound s v h) z)
    | inr e ↦ rw (fill_frame, e) (return_ppn-IsSound s p h z)
  ]
  fill_frame-IsSound s p v (some x) h z =
      (record { framed = h.framed; mapped = h.mapped; named = h.named }, omega arith)

  load_page-IsSound :
      (s : Pager Page Files) (p : ℕ)
      → IsSound cap s
      → 2 ≤ cap
      → p < s.next_page
      → ppn_of (s.pages p) ≡ 0
      → StaysSound cap s (load_page m s p).0
  unfolding load_page
  load_page-IsSound s p h c l z =
      let g = give_new_ppn-Given m s h.framed.frames p l z c in
      StaysSound-trans s (give_new_ppn m s p) (load_page m s p).0 (give_new_ppn-IsSound s p h c l z)
        (fill_frame-IsSound (give_new_ppn m s p) p _ _ (give_new_ppn-IsSound s p h c l z).0
          (ground (arith, g.mine, g.ppn_pos)))

  if_loaded-IsSound :
      (t : Pager Page Files × Bool) (p : ℕ) (write_flag : Bool)
      → IsSound cap t.0
      → StaysSound cap t.0 (if_loaded m t p write_flag).0
  unfolding if_loaded
  if_loaded-IsSound (s, true) p write_flag h = mark_accessed-IsSound s p write_flag h
  if_loaded-IsSound (s, false) p write_flag h = (h, omega arith)

  pub access_page-IsSound :
      (s : Pager Page Files) (p : ℕ) (write_flag : Bool)
      → IsSound cap s
      → 2 ≤ cap
      → p < s.next_page
      → StaysSound cap s (access_page m s p write_flag).0
  unfolding access_page
  access_page-IsSound s p write_flag h c l = elim (Bool-cases (needs_frame (s.pages p))) [
    | inl e ↦
        let z = needs_frame-ppn_of (s.pages p) (h.framed.resident_iff p) e in
        let k = load_page-IsSound s p h c l z in
        rw (access_page, e)
          (StaysSound-trans s (load_page m s p).0 _ k
            (if_loaded-IsSound (load_page m s p) p write_flag k.0))
    | inr e ↦ rw (access_page, e) (if_loaded-IsSound (s, true) p write_flag h)
  ]
