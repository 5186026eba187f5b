-- ===== src/Pager/Content/Detach.antt =====
-- vm_pager.cpp, vm_fault: a shared page is left for a new one.
use os_from_scratch.Common.{
  ℕ, ◌<◌, ◌≡◌, ◌≢◌, inl, inr, refl, sym, ap, ◌∙◌, List, [], ◌∷◌, ◌==◌, arith, length, Bool-cases,
  ==_ne, ==→≡, ◌≤◌, both_branches, update, some,
}
use os_from_scratch.Pager.{
  PtePtr, VirtualPage, Machine, Pager, front, insert_va, vas_of, vm_arena_maxaddr,
}
use os_from_scratch.Pager.Clock.{backing}
use os_from_scratch.Pager.Fault.{ppn_of, drop_last, private_page, without_ptr, detach}
use os_from_scratch.Pager.Sound.Fault.{detach-ppn_of}
use os_from_scratch.Pager.Content.{content, IsBacked, IsApart}
use os_from_scratch.Pager.Ptes.{update_ptes}
use os_from_scratch.Pager.Clock.{give_new_ppn}
use os_from_scratch.Pager.Fault.{copy_page, copy_data}
use os_from_scratch.Pager.Frames.Replace.{Given}
use os_from_scratch.Pager.Frames.Give.{give_new_ppn-Given}
use os_from_scratch.Pager.Sound.{IsSound}
use os_from_scratch.Pager.Sound.Fault.{detach-IsSound, detach-next}

-- A page that is where it was: in the same frame, or on the same block.
pub record SamePlace (v w : VirtualPage) : Type 0 where
  pub same_frame : w.physical_page ≡ v.physical_page
  pub same_resident : w.resident ≡ v.resident
  pub same_backing : backing w ≡ backing v
  pub same_front : front w.blocks ≡ front v.blocks

front-drop_last : (xs : List ℕ) → 1 < length xs → front (drop_last xs) ≡ front xs
unfolding drop_last
front-drop_last [] h = refl
front-drop_last (x ∷ []) h = absurd (omega arith)
front-drop_last (x ∷ y ∷ xs) h = refl

without_ptr-SamePlace :
    (v : VirtualPage) (ptr : PtePtr) → 1 < length v.blocks → SamePlace v (without_ptr v ptr)
unfolding without_ptr
without_ptr-SamePlace v ptr h = record {
  same_frame = refl;
  same_resident = refl;
  same_backing = refl;
  same_front = front-drop_last v.blocks h;
}

module _ (m : Machine) where
  open m use {Page, Files, file_read, file_of}

  pub content-SamePlace :
      (s t : Pager Page Files) (v w : VirtualPage)
      → SamePlace v w
      → t.memory ≡ s.memory
      → t.files ≡ s.files
      → content m t w ≡ content m s v
  unfolding content
  content-SamePlace s t v w h e d =
      ground (arith, h.same_frame, h.same_resident, h.same_backing, h.same_front)

  module _ (s : Pager Page Files) (p va : ℕ) (l : p < s.next_page)
      (b : 1 < length (s.pages p).blocks) where
    pub detach-SamePlace :
        (q : ℕ) → q ≢ s.next_page → SamePlace (s.pages q) ((detach m s p va).pages q)
    unfolding detach
    detach-SamePlace q n = elim (Bool-cases (q == p)) [
      | inl e ↦ rw (==_ne q s.next_page n, e, ==→≡ q p e) (without_ptr-SamePlace (s.pages p) _ b)
      | inr e ↦
          rw (==_ne q s.next_page n, e)
            (record {
              same_frame = refl;
              same_resident = refl;
              same_backing = refl;
              same_front = refl;
            })
    ]

    pub detach-IsBacked : IsBacked m s → IsBacked m (detach m s p va)
    unfolding detach private_page
    detach-IsBacked k e f y z = elim (Bool-cases (e == s.next_page)) [
      | inl x ↦ absurd (ground arith)
      | inr x ↦
          let h = detach-SamePlace e (ground arith) in
          let (x', r, c) = k e f (sym h.same_frame ∙ y) z in
          (x', ground (arith, h.same_backing, h.same_front, r), c)
    ]

    pub detach-IsApart : (q : ℕ) → q ≢ s.next_page → IsApart m s q → IsApart m (detach m s p va) q
    detach-IsApart q n k e d z = elim (Bool-cases (e == s.next_page)) [
      | inl x ↦ absurd (
          z (
            ap (λ y. ppn_of ((detach m s p va).pages y)) (==→≡ e s.next_page x)
            ∙ detach-ppn_of m s p va l))
      | inr x ↦
          let h = detach-SamePlace e (ground arith) in
          let h' = detach-SamePlace q n in
          elim (k e d (λ y. z (ground (arith, h.same_frame)))) [
            | inl y ↦
                inl (λ w. y (ap file_of (sym h.same_backing) ∙ w ∙ ap file_of h'.same_backing))
            | inr y ↦ inr (λ w. y (sym h.same_front ∙ w ∙ h'.same_front))
          ]
    ]

  pub detach_data :
      (s : Pager Page Files) (p va : ℕ)
      → ((detach m s p va).memory ≡ s.memory) × ((detach m s p va).files ≡ s.files)
  unfolding detach
  detach_data s p va = (refl, refl)

  module _ {cap : ℕ} (c : 2 ≤ cap) (s : Pager Page Files) (h : IsSound cap s) (p va : ℕ)
      (l : p < s.next_page) (in_arena : va < vm_arena_maxaddr) where
    -- The frame of the new page.
    pub detach-Given :
        Given m cap (detach m s p va) s.next_page (give_new_ppn m (detach m s p va) s.next_page)
    detach-Given =
        give_new_ppn-Given m (detach m s p va)
          (detach-IsSound m s p va h in_arena l).0.framed.frames s.next_page (detach-next m s p va)
          (detach-ppn_of m s p va l) c

    pub copy_page-translate_va :
        (copy_page m s p va).translate_va
        ≡ update s.translate_va s.current_pid
            (some (insert_va va s.next_page (vas_of (s.translate_va s.current_pid))))
    unfolding copy_page update_ptes copy_data detach
    copy_page-translate_va =
        both_branches
          (λ (x : Pager Page Files).
            x.translate_va
            ≡ update s.translate_va s.current_pid
                (some (insert_va va s.next_page (vas_of (s.translate_va s.current_pid)))))
          ((give_new_ppn m (detach m s p va) s.next_page).pages p).resident
          (ap (λ t. t.translate_va) detach-Given.only) (ap (λ t. t.translate_va) detach-Given.only)
