-- ===== src/Pager/Content/Copy.antt =====
-- vm_pager.cpp, the copy-on-write of vm_fault: the pages' data.
use os_from_scratch.Common.{
  ℕ, ◌<◌, ◌≤◌, ◌≡◌, ◌≢◌, ◌⊎◌, inl, inr, refl, sym, ap, ◌∙◌, true, false, Option, some, ◌==◌,
  if◌then◌else◌, arith, length, Bool-cases, both_branches, ==_refl, ==_ne, ==→≡,
}
use os_from_scratch.Pager.{Machine, Pager, vm_arena_maxaddr}
use os_from_scratch.Pager.Ptes.{update_ptes}
use os_from_scratch.Pager.Clock.{give_new_ppn}
use os_from_scratch.Pager.Fault.{ppn_of, mark_written, copy_data, detach, copy_page}
use os_from_scratch.Pager.Frames.{FramesOf}
use os_from_scratch.Pager.Frames.Replace.{Given, FromFree, FromPage}
use os_from_scratch.Pager.Sound.{IsSound}
use os_from_scratch.Pager.Sound.Fault.{detach-IsSound}
use os_from_scratch.Pager.Content.{content, IsCoherent}
use os_from_scratch.Pager.Content.Evict.{Given-content}
use os_from_scratch.Pager.Content.Detach.{
  detach-Given, SamePlace, content-SamePlace, detach-SamePlace, detach-IsBacked, detach-IsApart,
  detach_data,
}

module _ (m : Machine) where
  open m use {Page, Files, file_read}

  -- The copy of the data: the other pages, and the page that is copied to.
  copy_data_other :
      {cap : ℕ} (s : Pager Page Files) (p n q : ℕ)
      → FramesOf cap s
      → ppn_of (s.pages n) ≢ 0
      → q ≢ n
      → content m (copy_data m s p n) (s.pages q) ≡ content m s (s.pages q)
  unfolding copy_data content
  copy_data_other s p n q h z d = ground (arith, h.unshared q n)

  copy_data_lem :
      (t s : Pager Page Files) (p n : ℕ)
      → content m t (t.pages p) ≡ content m s (s.pages p)
      → t.memory ≡ s.memory
      → (s.pages p).resident ≡ true
      → ((t.pages p).resident ≡ false → ppn_of (t.pages n) ≡ ppn_of (s.pages p))
      → some ((copy_data m t p n).memory (ppn_of (t.pages n))) ≡ content m s (s.pages p)
  unfolding copy_data content
  copy_data_lem t s p n e d r g = elim (Bool-cases (t.pages p).resident) [
    | inl y ↦ ground (arith, e)
    | inr y ↦ ground (arith, g y, d)
  ]

  pub copy_data_pages : (s : Pager Page Files) (p n : ℕ) → (copy_data m s p n).pages ≡ s.pages
  unfolding copy_data
  copy_data_pages s p n =
      both_branches (λ (x : Pager Page Files). x.pages ≡ s.pages) (s.pages p).resident refl refl

  mark_written-content :
      (s : Pager Page Files) (n q : ℕ) (x : Option Page)
      → (s.pages n).resident ≡ true
      → some (s.memory (ppn_of (s.pages n))) ≡ x
      → content m s (if q == n then mark_written (s.pages n) else s.pages q)
        ≡ (if q == n then x else content m s (s.pages q))
  unfolding mark_written content
  mark_written-content s n q x r e = ground (arith, e)

  module _ {cap : ℕ} (c : 2 ≤ cap) (s : Pager Page Files) (h : IsSound cap s) (k : IsCoherent m s)
      (p va : ℕ) (l : p < s.next_page) (in_arena : va < vm_arena_maxaddr)
      (b : 1 < length (s.pages p).blocks) (r : (s.pages p).resident ≡ true) where
    new_frame :
        Given m cap (detach m s p va) s.next_page (give_new_ppn m (detach m s p va) s.next_page)
    new_frame = detach-Given m c s h p va l in_arena

    given-content :
        (q : ℕ)
        → q < s.next_page
        → content m
            (give_new_ppn m (detach m s p va) s.next_page)
            ((give_new_ppn m (detach m s p va) s.next_page).pages q)
          ≡ content m s (s.pages q)
    given-content q d =
        Given-content m (detach m s p va) (detach-IsSound m s p va h in_arena l).0.framed
          (detach-IsBacked m s p va l b k.backed) s.next_page _ new_frame q
          (detach-IsApart m s p va l b q (λ y. omega arith) (k.apart q d)) (λ y. omega arith)
        ∙ content-SamePlace m s (detach m s p va) _ _
            (detach-SamePlace m s p va l b q (λ y. omega arith)) (detach_data m s p va).0
            (detach_data m s p va).1

    abbrev s2 : Pager Page Files
    s2 = give_new_ppn m (detach m s p va) s.next_page

    -- A shared page that is not in memory any more gave its frame to the new one.
    gave_frame : (s2.pages p).resident ≡ false → ppn_of (s2.pages s.next_page) ≡ ppn_of (s.pages p)
    gave_frame e = go new_frame.from
      where
        before : SamePlace (s.pages p) ((detach m s p va).pages p)
        before = detach-SamePlace m s p va l b p (λ y. omega arith)

        go :
            FromFree m (detach m s p va) s.next_page s2
              ⊎ FromPage m (detach m s p va) s.next_page s2 new_frame.ppn
            → ppn_of (s2.pages s.next_page) ≡ ppn_of (s.pages p)
        go (inl f) = absurd (ground (arith, f.kept p (λ y. omega arith), before.same_resident))
        go (inr f) = elim (Bool-cases (p == f.victim)) [
          | inl y ↦
              let same : p ≡ f.victim = ==→≡ p f.victim y in
              let had : ppn_of ((detach m s p va).pages p) ≡ f.frame.ppn =
                ground (arith, f.had_frame, same) in
              ap ppn_of new_frame.mine ∙ sym f.takes ∙ sym had ∙ ground (arith, before.same_frame)
          | inr y ↦ absurd (ground (arith, f.kept p (λ x. omega arith), before.same_resident))
        ]

    copied :
        some ((copy_data m s2 p s.next_page).memory (ppn_of (s2.pages s.next_page)))
        ≡ content m s (s.pages p)
    copied =
        copy_data_lem s2 s p s.next_page (given-content p l)
          (ap (λ t. t.memory) new_frame.only ∙ (detach_data m s p va).0) r gave_frame

    abbrev s3 : Pager Page Files
    s3 = copy_data m s2 p s.next_page

    written :
        (q : ℕ)
        → content m (copy_page m s p va) ((copy_page m s p va).pages q)
          ≡ (if q == s.next_page then content m s (s.pages p) else content m s3 (s3.pages q))
    unfolding copy_page update_ptes content
    written q =
        let same = copy_data_pages s2 p s.next_page in
        mark_written-content s3 s.next_page q (content m s (s.pages p))
          (ap (λ f. (f s.next_page).resident) same ∙ ap (λ v. v.resident) new_frame.mine)
          (ap (λ f. some (s3.memory (ppn_of (f s.next_page)))) same ∙ copied)

    -- A copy-on-write changes no page's data, and the new page has the data of the page that it
    -- replaces.
    pub copy_page-content :
        ((q : ℕ)
          → q < s.next_page
          → content m (copy_page m s p va) ((copy_page m s p va).pages q) ≡ content m s (s.pages q))
        × (content m (copy_page m s p va) ((copy_page m s p va).pages s.next_page)
            ≡ content m s (s.pages p))
    copy_page-content = (
      λ q d.
          let n : q ≢ s.next_page = λ y. omega arith in
          rw (==_ne q s.next_page n) at (written q)
          ∙ ap (λ f. content m s3 (f q)) (copy_data_pages s2 p s.next_page)
          ∙ copy_data_other s2 p s.next_page q new_frame.frames
              (ground (arith, new_frame.mine, new_frame.ppn_pos)) n
          ∙ given-content q d,
      rw (==_refl s.next_page) at (written s.next_page),
    )
