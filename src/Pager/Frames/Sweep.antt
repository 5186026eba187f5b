-- ===== src/Pager/Frames/Sweep.antt =====
-- vm_pager.cpp, evict_and_replace: the loop that looks for a page whose bit is clear.
use os_from_scratch.Common.{
  ℕ, zero, suc, ◌<◌, ◌≡◌, ◌≢◌, inl, inr, refl, sym, subst, ap, ◌∙◌, true, false, List, [], ◌∷◌,
  ◌++◌, some, ◌==◌, length, update, arith, Bool-cases, Option-cases,
}
use os_from_scratch.Pager.{PhysicalPage, VirtualPage, Pager, is_empty}
use os_from_scratch.Pager.Clock.{is_queued, rotate, sweep}
use os_from_scratch.Pager.Frames.{Frames, FramesOf, distinct}
use os_from_scratch.Pager.Frames.Changes.{same-Frames, turn-Frames}
use os_from_scratch.Pager.Frames.Turn.{
  is_clocked, marked, marked-append, marked-update, marked-le, cleared, OnlyPages, rotate-OnlyPages,
  rotate-pages, rotate-clock, Cleared, Cleared-trans, first_clear, second_chance,
  first_clear-append,
}

-- What the loop ends with: a page at the front whose bit is clear.
pub record Swept {Page Files : Type 0} (cap : ℕ) (s t : Pager Page Files) : Type 0 where
  pub only_pages : OnlyPages s t
  pub frames : FramesOf cap t
  pub cleared_only : (q : ℕ) → Cleared (s.pages q) (t.pages q)
  pub rest : List ℕ
  pub frame : PhysicalPage
  pub at_front : t.clock_queue ≡ second_chance s.pages s.clock_queue ∷ rest
  pub has_frame : (t.pages (second_chance s.pages s.clock_queue)).physical_page ≡ some frame
  pub is_clear : frame.clocked ≡ false

module _ {Page Files : Type 0} (fuel : ℕ) (s : Pager Page Files) (p : ℕ) (rest : List ℕ)
    (f : PhysicalPage) (e : s.clock_queue ≡ p ∷ rest) (k : (s.pages p).physical_page ≡ some f) where
  sweep_turn : f.clocked ≡ true → sweep (suc fuel) s ≡ sweep fuel (rotate s p f rest)
  unfolding sweep
  sweep_turn c = ground arith

  sweep_stop : f.clocked ≡ false → sweep (suc fuel) s ≡ s
  unfolding sweep
  sweep_stop c = ground arith

frame_of_queued :
    {cap : ℕ} {pages : ℕ → VirtualPage} {clock free : List ℕ} {next : ℕ}
    → Frames cap pages clock free next
    → (p : ℕ) (rest : List ℕ) → clock ≡ p ∷ rest
    → (f : PhysicalPage) × ((pages p).physical_page ≡ some f) × (f.ppn ≢ 0) × (p < next)
unfolding is_queued
frame_of_queued {pages} h p rest e = elim (Option-cases (pages p).physical_page) [
  | inl n ↦ absurd (ground (arith, h.queued_iff p))
  | inr (f, k) ↦ (f, k, ground (arith, h.queued_iff p), ground (arith, h.fresh p))
]

is_empty-append : (xs : List ℕ) (p : ℕ) → is_empty (xs ++ p ∷ []) ≡ false
is_empty-append [] p = refl
is_empty-append (x ∷ xs) p = refl

marked_turn :
    (pages : ℕ → VirtualPage) (p : ℕ) (v : VirtualPage) (rest : List ℕ)
    → is_clocked (pages p) ≡ true
    → is_clocked v ≡ false
    → is_queued p rest ≡ false
    → suc (marked (update pages p v) (rest ++ p ∷ [])) ≡ marked pages (p ∷ rest)
unfolding marked
marked_turn pages p v rest c d n =
    ground (arith, marked-append (update pages p v) rest (p ∷ []), marked-update pages p v rest n)

second_chance_turn :
    (pages : ℕ → VirtualPage) (p : ℕ) (v : VirtualPage) (rest : List ℕ)
    → is_clocked (pages p) ≡ true
    → is_clocked v ≡ false
    → is_queued p rest ≡ false
    → second_chance (update pages p v) (rest ++ p ∷ []) ≡ second_chance pages (p ∷ rest)
unfolding second_chance first_clear
second_chance_turn pages p v [] c d n = ground arith
second_chance_turn pages p v (x ∷ rest) c d n =
    ground (arith, first_clear-append pages (x ∷ rest) p v x n d)

module _ {Page Files : Type 0} {cap : ℕ} where
  pub OnlyPages-Frames :
      (s t : Pager Page Files)
      → OnlyPages s t
      → Frames cap t.pages t.clock_queue s.next_free_ppn s.next_page
      → FramesOf cap t
  OnlyPages-Frames s t o h =
      subst (λ free. Frames cap t.pages t.clock_queue free t.next_page)
        (sym (ap (λ u. u.next_free_ppn) o))
        (subst (Frames cap t.pages t.clock_queue s.next_free_ppn) (sym (ap (λ u. u.next_page) o)) h)

  module _ (s : Pager Page Files) (h : FramesOf cap s) (p : ℕ) (rest : List ℕ) (f : PhysicalPage)
      (e : s.clock_queue ≡ p ∷ rest) (k : (s.pages p).physical_page ≡ some f) where
    rotate-Frames : p < s.next_page → FramesOf cap (rotate s p f rest)
    rotate-Frames l =
        let v = cleared (s.pages p) f in
        OnlyPages-Frames s (rotate s p f rest) (rotate-OnlyPages s p f rest) (
          subst (λ x. Frames cap x (rotate s p f rest).clock_queue s.next_free_ppn s.next_page)
            (sym (rotate-pages s p f rest))
            (subst (λ x. Frames cap (update s.pages p v) x s.next_free_ppn s.next_page)
              (sym (rotate-clock s p f rest))
              (turn-Frames (same-Frames h p v (ground arith) (λ y. absurd (omega arith))) p rest
                e)))

    not_queued : is_queued p rest ≡ false
    unfolding distinct
    not_queued = ground (arith, h.once)

    rotate-marked :
        f.clocked ≡ true
        → suc (marked (rotate s p f rest).pages (rotate s p f rest).clock_queue)
          ≡ marked s.pages s.clock_queue
    rotate-marked c =
        (λ i. suc (marked (rotate-pages s p f rest i) (rotate-clock s p f rest i)))
        ∙ marked_turn s.pages p (cleared (s.pages p) f) rest (ground arith) refl not_queued
        ∙ (λ i. marked s.pages (sym e i))

    rotate-second_chance :
        f.clocked ≡ true
        → second_chance (rotate s p f rest).pages (rotate s p f rest).clock_queue
          ≡ second_chance s.pages s.clock_queue
    rotate-second_chance c =
        (λ i. second_chance (rotate-pages s p f rest i) (rotate-clock s p f rest i))
        ∙ second_chance_turn s.pages p (cleared (s.pages p) f) rest (ground arith) refl not_queued
        ∙ (λ i. second_chance s.pages (sym e i))

    rotate-Cleared : (q : ℕ) → Cleared (s.pages q) ((rotate s p f rest).pages q)
    rotate-Cleared q =
        subst (λ x. Cleared (s.pages q) (x q)) (sym (rotate-pages s p f rest))
          (elim (Bool-cases (q == p)) [
            | inl y ↦ rw y (inr (f, ground arith, ground arith))
            | inr n ↦ rw n (inl refl)
          ])

    Swept-stop : f.clocked ≡ false → Swept cap s s
    unfolding second_chance first_clear
    Swept-stop c = record {
      only_pages = refl;
      frames = h;
      cleared_only = λ q. inl refl;
      rest = rest;
      frame = f;
      at_front = ground arith;
      has_frame = ground arith;
      is_clear = c;
    }

    Swept-turn :
        (t : Pager Page Files) → f.clocked ≡ true → Swept cap (rotate s p f rest) t → Swept cap s t
    Swept-turn t c w = record {
      only_pages =
          w.only_pages
          ∙ ap {A = Pager Page Files} {B = Pager Page Files}
              (λ u. record u {
                process_table = t.process_table;
                pages = t.pages;
                clock_queue = t.clock_queue;
              })
              (rotate-OnlyPages s p f rest);
      frames = w.frames;
      cleared_only = λ q. Cleared-trans _ _ _ (rotate-Cleared q) (w.cleared_only q);
      rest = w.rest;
      frame = w.frame;
      at_front = w.at_front ∙ ap (λ x. x ∷ w.rest) (rotate-second_chance c);
      has_frame = ap (λ x. (t.pages x).physical_page) (sym (rotate-second_chance c)) ∙ w.has_frame;
      is_clear = w.is_clear;
    }

  sweep_lem :
      (fuel : ℕ) (s : Pager Page Files)
      → FramesOf cap s
      → marked s.pages s.clock_queue < fuel
      → is_empty s.clock_queue ≡ false
      → Swept cap s (sweep fuel s)
  sweep_lem zero s h l n = absurd (omega arith)
  sweep_lem (suc fuel) s h l n = go s.clock_queue refl (sweep_lem fuel)
    where
      go :
          (queue : List ℕ)
          → s.clock_queue ≡ queue
          → ((s' : Pager Page Files)
              → FramesOf cap s'
              → marked s'.pages s'.clock_queue < fuel
              → is_empty s'.clock_queue ≡ false
              → Swept cap s' (sweep fuel s'))
          → Swept cap s (sweep (suc fuel) s)
      go [] e rec = absurd (ground arith)
      go (p ∷ rest) e rec =
          let (f, k, z, y) = frame_of_queued h p rest e in
          elim (Bool-cases f.clocked) [
            | inl c ↦ subst (Swept cap s) (sym (sweep_turn fuel s p rest f e k c)) (
                Swept-turn s h p rest f e k (sweep fuel (rotate s p f rest)) c (
                  rec (rotate s p f rest) (rotate-Frames s h p rest f e k y)
                    (omega (arith, rotate-marked s h p rest f e k c, l))
                    (ground (arith, rotate-clock s p f rest, is_empty-append rest p))))
            | inr c ↦
                subst (Swept cap s) (sym (sweep_stop fuel s p rest f e k c))
                  (Swept-stop s h p rest f e k c)
          ]

  -- The clock's hand finds a page to evict within one round: the loop ends, and no assert in it
  -- fails. The page is the first in the clock's order whose bit is clear, or the first of all if
  -- no bit is clear; of the other pages at most the bits are cleared. The frames are accounted
  -- for, and at least one page has a frame.
  pub sweep-Swept :
      (s : Pager Page Files)
      → FramesOf cap s
      → is_empty s.clock_queue ≡ false
      → Swept cap s (sweep (suc (length s.clock_queue)) s)
  sweep-Swept s h n =
      sweep_lem (suc (length s.clock_queue)) s h (omega (arith, marked-le s.pages s.clock_queue)) n
