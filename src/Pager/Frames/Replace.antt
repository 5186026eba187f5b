-- ===== src/Pager/Frames/Replace.antt =====
-- vm_pager.cpp, evict_and_replace: a page loses its frame to another.
use os_from_scratch.Common.{
  ℕ, ◌<◌, ◌≡◌, ◌≢◌, ◌⊎◌, inl, inr, refl, sym, subst, ap, true, false, List, [], ◌∷◌, ◌++◌, none,
  some, Bytes, if◌then◌else◌, length, update, arith, Bool-cases,
}
use os_from_scratch.Pager.{
  PtePtr, PhysicalPage, VirtualPage, Machine, Pager, is_empty, front, remove_from_filename_block,
}
use os_from_scratch.Pager.Ptes.{update_ptes, update_ptes_if_any}
use os_from_scratch.Pager.Clock.{with_frame, backing, write_back, replace}
use os_from_scratch.Pager.Fault.{ppn_of, has_ptr}
use os_from_scratch.Pager.Frames.{Frames, FramesOf}
use os_from_scratch.Pager.Frames.Disabled.{Disabled}
use os_from_scratch.Pager.Frames.Turn.{Cleared}

-- A page that has lost its frame.
abbrev pub evicted : VirtualPage → VirtualPage
evicted v = record v { resident = false; physical_page = none }

-- A page with a frame that nothing has been written to.
abbrev pub given : VirtualPage → ℕ → VirtualPage
given v ppn = record (with_frame v ppn) { resident = true }

-- A cleared bit leaves the rest of the page as it is.
pub record WasFramed (v w : VirtualPage) (f : PhysicalPage) : Type 0 where
  pub frame : PhysicalPage
  pub had : v.physical_page ≡ some frame
  pub same_ppn : frame.ppn ≡ f.ppn
  pub same_dirty : frame.dirty ≡ f.dirty
  pub same_backing : backing w ≡ backing v
  pub same_blocks : w.blocks ≡ v.blocks
  pub same_evicted : evicted w ≡ evicted v

pub Cleared-WasFramed :
    (v w : VirtualPage) (f : PhysicalPage)
    → Cleared v w
    → w.physical_page ≡ some f
    → WasFramed v w f
Cleared-WasFramed v w f (inl e) k = record {
  frame = f;
  had = ground arith;
  same_ppn = refl;
  same_dirty = refl;
  same_backing = ap backing e;
  same_blocks = ap (λ x. x.blocks) e;
  same_evicted = ap evicted e;
}
Cleared-WasFramed v w f (inr (g, y, e)) k = record {
  frame = g;
  had = y;
  same_ppn = ground arith;
  same_dirty = ground arith;
  same_backing = ap backing e;
  same_blocks = ap (λ x. x.blocks) e;
  same_evicted = ap evicted e;
}

pub Cleared-ppn_of : (v w : VirtualPage) → Cleared v w → ppn_of w ≡ ppn_of v
Cleared-ppn_of v w c = ground arith

pub queue_not_empty : (xs : List ℕ) → 0 < length xs → is_empty xs ≡ false
queue_not_empty [] h = absurd (omega arith)
queue_not_empty (x ∷ xs) h = refl

module _ (m : Machine) where
  open m use {Page, Files, file_write}

  -- The fields that giving a frame leaves alone.
  abbrev pub OnlyFrames : Pager Page Files → Pager Page Files → Type 0
  OnlyFrames s t = t ≡ record s {
    process_table = t.process_table;
    filename_block_to_vpage = t.filename_block_to_vpage;
    next_free_ppn = t.next_free_ppn;
    clock_queue = t.clock_queue;
    pages = t.pages;
    files = t.files;
    aborted = t.aborted;
  }

  -- A dirty page's data goes to its block.
  abbrev pub saved : Pager Page Files → VirtualPage → PhysicalPage → Files
  saved s v f =
      if f.dirty then file_write s.files (backing v) (front v.blocks) (s.memory f.ppn) else s.files

  module _ (s : Pager Page Files) (e : ℕ) (f : PhysicalPage) (rest : List ℕ) (p : ℕ) where
    pub replace_lem : replace m s e f rest p ≡ record s {
      process_table = (replace m s e f rest p).process_table;
      filename_block_to_vpage = (replace m s e f rest p).filename_block_to_vpage;
      clock_queue = rest ++ p ∷ [];
      pages = update (update s.pages p (with_frame (s.pages p) f.ppn)) e (evicted (s.pages e));
      files = saved s (s.pages e) f;
      aborted = (replace m s e f rest p).aborted;
    }
    unfolding replace write_back update_ptes update_ptes_if_any remove_from_filename_block
    replace_lem = elim (Bool-cases (is_empty (s.pages e).affiliated)) [
      | inl y ↦ elim (Bool-cases (s.pages e).is_swap) [
        | inl w ↦ rw (y, w) refl
        | inr w ↦ rw (y, w) refl
      ]
      | inr y ↦ elim (Bool-cases (s.pages e).is_swap) [
        | inl w ↦ rw (y, w) refl
        | inr w ↦ rw (y, w) refl
      ]
    ]

    pub replace_forgets :
        (name : Bytes) (block : ℕ) {q : ℕ}
        → (replace m s e f rest p).filename_block_to_vpage name block ≡ some q
        → s.filename_block_to_vpage name block ≡ some q
    unfolding replace write_back update_ptes update_ptes_if_any remove_from_filename_block
    replace_forgets name block y = ground arith

  -- The frame was free, or it was taken from a page, whose data was saved first.
  pub record FromFree (s : Pager Page Files) (p : ℕ) (t : Pager Page Files) : Type 0 where
    pub same_files : t.files ≡ s.files
    pub kept : (q : ℕ) → q ≢ p → t.pages q ≡ s.pages q

  pub record FromPage (s : Pager Page Files) (p : ℕ) (t : Pager Page Files) (ppn : ℕ) : Type 0 where
    pub victim : ℕ
    pub frame : PhysicalPage
    pub had_frame : (s.pages victim).physical_page ≡ some frame
    pub takes : frame.ppn ≡ ppn
    pub other : victim ≢ p
    pub saved_files : t.files ≡ saved s (s.pages victim) frame
    pub is_evicted : t.pages victim ≡ evicted (s.pages victim)
    pub disabled :
        (ptr : PtePtr)
        → has_ptr ptr (s.pages victim).affiliated ≡ true
        → Disabled ptr t.process_table
    pub kept : (q : ℕ) → q ≢ p → q ≢ victim → Cleared (s.pages q) (t.pages q)

  pub record Given (cap : ℕ) (s : Pager Page Files) (p : ℕ) (t : Pager Page Files) : Type 0 where
    pub only : OnlyFrames s t
    pub frames : FramesOf cap t
    pub ppn : ℕ
    pub mine : t.pages p ≡ given (s.pages p) ppn
    pub ppn_pos : ppn ≢ 0
    pub forgets :
        (name : Bytes) (block : ℕ) {q : ℕ}
        → t.filename_block_to_vpage name block ≡ some q
        → s.filename_block_to_vpage name block ≡ some q
    pub from : FromFree s p t ⊎ FromPage s p t ppn

  OnlyFrames-Frames :
      {cap : ℕ} (s t : Pager Page Files)
      → OnlyFrames s t
      → Frames cap t.pages t.clock_queue t.next_free_ppn s.next_page
      → FramesOf cap t
  OnlyFrames-Frames {cap} s t o h =
      subst (Frames cap t.pages t.clock_queue t.next_free_ppn) (sym (ap (λ u. u.next_page) o)) h
