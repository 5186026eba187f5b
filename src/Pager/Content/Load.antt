-- ===== src/Pager/Content/Load.antt =====
-- vm_pager.cpp, vm_fault below the copy-on-write: the pages' data.
use os_from_scratch.Common.{
  ℕ, ◌<◌, ◌≤◌, ◌≡◌, ◌≢◌, inl, inr, refl, sym, subst, ap, ◌∙◌, Bool, true, false, Option, none, some,
  ◌==◌, if◌then◌else◌, arith, length, Bool-cases, Option-cases, both_branches, ==_refl, ==_ne, ==→≡,
}
use os_from_scratch.Pager.{Machine, Pager, front, remove_from_filename_block}
use os_from_scratch.Pager.Ptes.{update_ptes}
use os_from_scratch.Pager.Clock.{backing, give_new_ppn, return_frame, return_ppn_remove_from_clock}
use os_from_scratch.Pager.Fault.{
  ppn_of, needs_frame, fill_frame, load_page, mark_accessed, if_loaded, access_page,
}
use os_from_scratch.Pager.Frames.{FramesOf}
use os_from_scratch.Pager.Frames.Give.{give_new_ppn-Given}
use os_from_scratch.Pager.Frames.Replace.{evicted}
use os_from_scratch.Pager.Sound.{IsSound}
use os_from_scratch.Pager.Sound.Access.{needs_frame-ppn_of}
use os_from_scratch.Pager.Content.{content, IsCoherent}
use os_from_scratch.Pager.Content.Evict.{Given-content, Given-read}

module _ (m : Machine) where
  open m use {Page, Files, zero_page, file_read}

  -- A page that gives its frame back, and the other pages.
  return_ppn-content :
      (s : Pager Page Files) (p q : ℕ)
      → ppn_of (s.pages p) ≢ 0
      → let t = return_ppn_remove_from_clock m s p in
        content m t (t.pages q) ≡ content m s (if q == p then evicted (s.pages p) else s.pages q)
  unfolding return_ppn_remove_from_clock return_frame update_ptes content
  return_ppn-content s p q z = elim (Option-cases (s.pages p).physical_page) [
    | inl e ↦ absurd (ground arith)
    | inr (f, e) ↦ ground arith
  ]

  fill_none-content :
      (s : Pager Page Files) (p q : ℕ)
      → ppn_of (s.pages p) ≢ 0
      → let t = (fill_frame m s p (s.pages p) none).0 in
        content m t (t.pages q) ≡ content m s (if q == p then evicted (s.pages p) else s.pages q)
  unfolding fill_frame remove_from_filename_block content
  fill_none-content s p q z =
      both_branches
        (λ (u : Pager Page Files).
          content m (return_ppn_remove_from_clock m u p)
            ((return_ppn_remove_from_clock m u p).pages q)
          ≡ content m s (if q == p then evicted (s.pages p) else s.pages q))
        (length (s.pages p).affiliated == 1)
        (return_ppn-content (remove_from_filename_block s (s.pages p)) p q z)
        (return_ppn-content s p q z)

  -- The page that is loaded: what is put into its frame, or its block that cannot be read.
  fill_frame-content :
      (s : Pager Page Files) (p : ℕ) (x : Option Page)
      → (s.pages p).resident ≡ true
      → ppn_of (s.pages p) ≢ 0
      → (x ≡ none → content m s (evicted (s.pages p)) ≡ none)
      → let t = (fill_frame m s p (s.pages p) x).0 in content m t (t.pages p) ≡ x
  unfolding fill_frame remove_from_filename_block content
  fill_frame-content s p none r z e = rw (==_refl p) at (fill_none-content s p p z) ∙ e refl
  fill_frame-content s p (some x) r z e = ground arith

  fill_frame_other :
      {cap : ℕ} (s : Pager Page Files) (p : ℕ) (x : Option Page) (q : ℕ)
      → FramesOf cap s
      → ppn_of (s.pages p) ≢ 0
      → q ≢ p
      → let t = (fill_frame m s p (s.pages p) x).0 in
        content m t (t.pages q) ≡ content m s (s.pages q)
  unfolding fill_frame remove_from_filename_block content
  fill_frame_other s p none q h z n = rw (==_ne q p n) at (fill_none-content s p q z)
  fill_frame_other s p (some x) q h z n = ground (arith, h.unshared q p)

  module _ {cap : ℕ} (c : 2 ≤ cap) (s : Pager Page Files) (h : IsSound cap s) (k : IsCoherent m s)
      (p : ℕ) (l : p < s.next_page) (z : ppn_of (s.pages p) ≡ 0) where
    -- The data that goes into the frame is the page's own.
    loaded : Option Page
    loaded =
        let v = s.pages p in
        if v.resident
        then some zero_page
        else file_read (give_new_ppn m s p).files (backing v) (front v.blocks)

    loaded_lem : loaded ≡ content m s (s.pages p)
    unfolding loaded content
    loaded_lem =
        let g = give_new_ppn-Given m s h.framed.frames p l z c in
        elim (Bool-cases (s.pages p).resident) [
          | inl e ↦ rw e (ap some (sym k.zeroed ∙ ap s.memory (sym z)))
          | inr e ↦ rw e (Given-read m s p (give_new_ppn m s p) g p (k.apart p l) z)
        ]

    load_page_mine :
        let t = (load_page m s p).0 in content m t (t.pages p) ≡ content m s (s.pages p)
    unfolding load_page loaded content
    load_page_mine =
        let s1 = give_new_ppn m s p in
        let g = give_new_ppn-Given m s h.framed.frames p l z c in
        fill_frame-content s1 p loaded (ap (λ v. v.resident) g.mine)
          (ground (arith, g.mine, g.ppn_pos))
          (λ e. elim (Bool-cases (s.pages p).resident) [
            | inl y ↦ absurd (ground arith)
            | inr y ↦ ap (λ v. content m s1 (evicted v)) g.mine ∙ rw y at e
          ])
        ∙ loaded_lem

    pub load_page-content :
        (q : ℕ)
        → q < s.next_page
        → let t = (load_page m s p).0 in content m t (t.pages q) ≡ content m s (s.pages q)
    unfolding load_page loaded
    load_page-content q b = elim (Bool-cases (q == p)) [
      | inl y ↦
          subst
            (λ x.
              content m (load_page m s p).0 ((load_page m s p).0.pages x) ≡ content m s (s.pages x))
            (sym (==→≡ q p y)) load_page_mine
      | inr y ↦
          let s1 = give_new_ppn m s p in
          let g = give_new_ppn-Given m s h.framed.frames p l z c in
          fill_frame_other s1 p loaded q g.frames (ground (arith, g.mine, g.ppn_pos)) (ground arith)
          ∙ Given-content m s h.framed k.backed p s1 g q (k.apart q b) (ground arith)
    ]

  mark_accessed-content :
      (s : Pager Page Files) (p : ℕ) (write_flag : Bool) (q : ℕ)
      → let t = mark_accessed m s p write_flag in content m t (t.pages q) ≡ content m s (s.pages q)
  unfolding mark_accessed update_ptes content
  mark_accessed-content s p write_flag q = elim (Option-cases (s.pages p).physical_page) [
    | inl e ↦ ground arith
    | inr (f, e) ↦ ground arith
  ]

  if_loaded-content :
      (t : Pager Page Files × Bool) (p : ℕ) (write_flag : Bool) (q : ℕ)
      → let u = (if_loaded m t p write_flag).0 in
        content m u (u.pages q) ≡ content m t.0 (t.0.pages q)
  unfolding if_loaded
  if_loaded-content (s, true) p write_flag q = mark_accessed-content s p write_flag q
  if_loaded-content (s, false) p write_flag q = refl

  -- An access that is not a copy-on-write changes no page's data, whatever page is evicted for it,
  -- and whether the block can be read or not.
  pub access_page-content :
      {cap : ℕ} (c : 2 ≤ cap) (s : Pager Page Files)
      → IsSound cap s
      → IsCoherent m s
      → (p : ℕ) → p < s.next_page
      → (write_flag : Bool) (q : ℕ) → q < s.next_page
      → let t = (access_page m s p write_flag).0 in
        content m t (t.pages q) ≡ content m s (s.pages q)
  unfolding access_page
  access_page-content c s h k p l write_flag q b = elim (Bool-cases (needs_frame (s.pages p))) [
    | inl e ↦
        rw (access_page, e)
          (if_loaded-content (load_page m s p) p write_flag q
            ∙ load_page-content c s h k p l
                (needs_frame-ppn_of (s.pages p) (h.framed.resident_iff p) e) q b)
    | inr e ↦ rw (access_page, e) (if_loaded-content (s, true) p write_flag q)
  ]
