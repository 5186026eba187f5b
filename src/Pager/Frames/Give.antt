-- ===== src/Pager/Frames/Give.antt =====
-- vm_pager.cpp, give_new_ppn and evict_and_replace: a page gets a frame, another may lose it.
use os_from_scratch.Common.{
  ℕ, suc, ◌<◌, ◌≤◌, ◌≡◌, ◌≢◌, ◌⊎◌, inl, inr, refl, sym, subst, ap, ◌∙◌, true, false, List, [], ◌∷◌,
  ◌++◌, some, ◌==◌, length, update, arith, Bool-cases, ==_ne, ==→≡,
}
use os_from_scratch.Pager.{PhysicalPage, VirtualPage, Machine, Pager, put_page}
use os_from_scratch.Pager.Clock.{
  is_queued, with_frame, sweep, replace, evict_front, evict_and_replace, frame_from, give_new_ppn,
}
use os_from_scratch.Pager.Fault.{ppn_of, has_ptr}
use os_from_scratch.Pager.Frames.{FramesOf, Framed, Resident}
use os_from_scratch.Pager.Frames.Changes.{same-Frames, take-Frames, steal-Frames}
use os_from_scratch.Pager.Frames.Sweep.{Swept, sweep-Swept}
use os_from_scratch.Pager.Frames.Disabled.{replace-Disabled}
use os_from_scratch.Pager.Frames.Turn.{OnlyPages, Cleared, second_chance}
use os_from_scratch.Pager.Frames.Replace.{
  evicted, WasFramed, Cleared-WasFramed, Cleared-ppn_of, queue_not_empty, saved, replace_lem,
  replace_forgets, FromFree, FromPage, Given,
}

module _ (m : Machine) where
  open m use {Page, Files}

  -- give_new_ppn, with the free list as an argument.
  abbrev fresh_frame : VirtualPage → VirtualPage
  fresh_frame v = record v {
    physical_page = some (record { ppn = 0; clocked = false; dirty = false });
  }

  abbrev give_from : Pager Page Files → ℕ → List ℕ → Pager Page Files
  give_from s p free =
      let s' = frame_from m (put_page s p (fresh_frame (s.pages p))) p free in
      put_page s' p (record (s'.pages p) { resident = true })

  evict_framed :
      (s : Pager Page Files) (e : ℕ) (f : PhysicalPage) (rest : List ℕ) (p : ℕ)
      → (s.pages e).physical_page ≡ some f
      → evict_front m s (e ∷ rest) p ≡ replace m s e f rest p
  unfolding evict_front
  evict_framed s e f rest p k = ground arith

  module _ {cap : ℕ} (s : Pager Page Files) (h : FramesOf cap s) (p : ℕ) (l : p < s.next_page)
      (z : ppn_of (s.pages p) ≡ 0) where
    give_free :
        (ppn : ℕ) (rest : List ℕ)
        → s.next_free_ppn ≡ ppn ∷ rest
        → Given m cap s p (give_from s p (ppn ∷ rest))
    unfolding frame_from is_queued
    give_free ppn rest e = record {
      only = refl;
      frames =
          same-Frames
            (take-Frames
              (same-Frames h p (fresh_frame (s.pages p)) (ground arith) (λ y. absurd (omega arith)))
              p ppn rest _ e (ground arith) l refl)
            p _ refl (λ y. absurd (omega arith));
      ppn = ppn;
      mine = ground arith;
      ppn_pos = ground (arith, h.free_bounded ppn);
      forgets = λ name block y. y;
      from = inl (record { same_files = refl; kept = λ q n. ground arith });
    }

    module _ (u : Pager Page Files) (e : ℕ) (f : PhysicalPage) (rest : List ℕ)
        (only_pages : OnlyPages (put_page s p (fresh_frame (s.pages p))) u) (uf : FramesOf cap u)
        (cleared_only : (q : ℕ)
          → Cleared (update s.pages p (fresh_frame (s.pages p)) q) (u.pages q))
        (at_front : u.clock_queue ≡ e ∷ rest) (has_frame : (u.pages e).physical_page ≡ some f) where
      -- The page that loses its frame is not the one that gets it.
      mine_ppn : ppn_of (u.pages p) ≡ 0
      mine_ppn = Cleared-ppn_of _ _ (cleared_only p) ∙ ground arith

      front_ppn : f.ppn ≢ 0
      unfolding is_queued
      front_ppn = ground (arith, uf.queued_iff e)

      front_ne : e ≢ p
      front_ne y = front_ppn (ground (arith, mine_ppn))

      was : WasFramed (s.pages e) (u.pages e) f
      was =
          subst (λ x. WasFramed x (u.pages e) f) (rw (==_ne e p front_ne) refl)
            (Cleared-WasFramed _ _ f (cleared_only e) has_frame)

      same_saved : saved m u (u.pages e) f ≡ saved m s (s.pages e) was.frame
      same_saved = ground (
        arith,
        ap (λ x. x.files) only_pages,
        ap (λ x. x.memory f.ppn) only_pages,
        was.same_ppn,
        was.same_dirty,
        was.same_backing,
        was.same_blocks,
      )

      next_same : u.next_page ≡ s.next_page
      next_same = ap (λ x. x.next_page) only_pages

      after : Pager Page Files
      after = record u {
        process_table = (replace m u e f rest p).process_table;
        filename_block_to_vpage = (replace m u e f rest p).filename_block_to_vpage;
        clock_queue = rest ++ p ∷ [];
        pages = update (update u.pages p (with_frame (u.pages p) f.ppn)) e (evicted (u.pages e));
        files = saved m u (u.pages e) f;
        aborted = (replace m u e f rest p).aborted;
      }

      mine_same : with_frame (u.pages p) f.ppn ≡ with_frame (s.pages p) f.ppn
      mine_same = ground (arith, cleared_only p)

      give_after : Given m cap s p (put_page after p (record (after.pages p) { resident = true }))
      unfolding after
      give_after = record {
        only =
            ap {A = Pager Page Files} {B = Pager Page Files}
              (λ x. record x {
                process_table = after.process_table;
                filename_block_to_vpage = after.filename_block_to_vpage;
                next_free_ppn = u.next_free_ppn;
                clock_queue = after.clock_queue;
                pages = update after.pages p (record (after.pages p) { resident = true });
                files = after.files;
                aborted = after.aborted;
              })
              only_pages;
        frames =
            same-Frames
              (steal-Frames uf e p rest (with_frame (u.pages p) f.ppn) (evicted (u.pages e))
                at_front mine_ppn (omega (arith, next_same, l)) (ground arith) refl)
              p _ refl (λ y. absurd (omega (arith, next_same, l)));
        ppn = f.ppn;
        mine = ground (arith, mine_same, front_ne);
        ppn_pos = front_ppn;
        forgets = λ name block y.
            ap (λ x. x.filename_block_to_vpage name block) (sym only_pages)
            ∙ replace_forgets m u e f rest p name block y;
        from = inr (record {
          victim = e;
          frame = was.frame;
          had_frame = was.had;
          takes = was.same_ppn;
          other = front_ne;
          saved_files = same_saved;
          is_evicted = ground (arith, front_ne, was.same_evicted);
          disabled = λ ptr y.
              replace-Disabled m u e f rest p ptr (
                subst (λ a. has_ptr ptr a ≡ true) (sym (ap (λ v. v.affiliated) was.same_evicted))
                  y);
          kept = λ q n k. rw (==_ne q p n, ==_ne q e k) (rw (==_ne q p n) at (cleared_only q));
        });
      }

    -- The frame of a page that the clock's hand has found.
    give_stolen :
        (u : Pager Page Files)
        → Swept cap (put_page s p (fresh_frame (s.pages p))) u
        → Given m cap s p (
            put_page
              (evict_front m u u.clock_queue p)
              p
              (record ((evict_front m u u.clock_queue p).pages p) { resident = true }))
    unfolding evict_front after
    give_stolen u w =
        let s0 = put_page s p (fresh_frame (s.pages p)) in
        let e = second_chance s0.pages s0.clock_queue in
        let found : evict_front m u u.clock_queue p ≡ replace m u e w.frame w.rest p =
          ap (λ q. evict_front m u q p) w.at_front
          ∙ evict_framed u e w.frame w.rest p w.has_frame in
        subst (λ x. Given m cap s p (put_page x p (record (x.pages p) { resident = true })))
          (sym (found ∙ replace_lem m u e w.frame w.rest p))
          (give_after u e w.frame w.rest w.only_pages w.frames w.cleared_only w.at_front
            w.has_frame)

    give_evict : s.next_free_ppn ≡ [] → 2 ≤ cap → Given m cap s p (give_from s p [])
    unfolding frame_from evict_and_replace
    give_evict e c =
        let s0 = put_page s p (fresh_frame (s.pages p)) in
        give_stolen (sweep (suc (length s.clock_queue)) s0) (
          sweep-Swept s0
            (same-Frames h p (fresh_frame (s.pages p)) (ground arith) (λ y. absurd (omega arith)))
            (queue_not_empty s.clock_queue (omega (arith, h.counted, ap length e))))

    -- give_new_ppn gives a page with no frame a free one, or that of another page, whose data is
    -- written to its block first if it is dirty, and whose page table entries then allow neither
    -- reads nor writes. The page is then in memory with its bit set and
    -- not dirty, and the frames are accounted for again. The other pages change at most in their
    -- clock bits, and the rest of the state in the page table entries, the map of files, which
    -- only loses pages, and the flag of failed asserts. The conditions: the page exists and has
    -- no frame, the frames are accounted for, and there are two pages of memory at least.
    pub give_new_ppn-Given : 2 ≤ cap → Given m cap s p (give_new_ppn m s p)
    unfolding give_new_ppn
    give_new_ppn-Given c = go s.next_free_ppn refl
      where
        go : (free : List ℕ) → s.next_free_ppn ≡ free → Given m cap s p (give_from s p free)
        go [] e = give_evict e c
        go (ppn ∷ rest) e = give_free ppn rest e

  Cleared-Resident : (v w : VirtualPage) → Cleared v w → Resident v → Resident w
  Cleared-Resident v w c r = ground arith

  pub Given-Framed :
      {cap : ℕ} (s : Pager Page Files) (p : ℕ) (t : Pager Page Files)
      → ((q : ℕ) → Resident (s.pages q))
      → Given m cap s p t
      → Framed cap t
  Given-Framed s p t r g = record {
    frames = g.frames;
    resident_iff = λ q. elim (Bool-cases (q == p)) [
      | inl y ↦ subst (λ x. Resident (t.pages x)) (sym (==→≡ q p y)) (ground (arith, g.mine))
      | inr n ↦ other q (ground arith) g.from
    ];
  }
    where
      other : (q : ℕ) → q ≢ p → FromFree m s p t ⊎ FromPage m s p t g.ppn → Resident (t.pages q)
      other q n (inl f) = ground (arith, f.kept q n, r q)
      other q n (inr f) = elim (Bool-cases (q == f.victim)) [
        | inl y ↦
            subst (λ x. Resident (t.pages x)) (sym (==→≡ q f.victim y))
              (ground (arith, f.is_evicted))
        | inr k ↦ Cleared-Resident (s.pages q) (t.pages q) (f.kept q n (ground arith)) (r q)
      ]
