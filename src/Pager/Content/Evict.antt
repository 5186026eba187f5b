-- ===== src/Pager/Content/Evict.antt =====
-- vm_pager.cpp, give_new_ppn and the loading of a page in vm_fault: the pages' data.
use os_from_scratch.Common.{
  ℕ, ◌≡◌, ◌≢◌, ◌⊎◌, inl, inr, refl, sym, subst, ap, ◌∙◌, false, some, ◌==◌, arith, Bool-cases, ==→≡,
}
use os_from_scratch.Pager.{PhysicalPage, VirtualPage, Machine, Pager, front}
use os_from_scratch.Pager.Clock.{backing}
use os_from_scratch.Pager.Fault.{ppn_of}
use os_from_scratch.Pager.Frames.{Framed}
use os_from_scratch.Pager.Frames.Turn.{Cleared}
use os_from_scratch.Pager.Frames.Replace.{evicted, saved, Given, FromFree, FromPage}
use os_from_scratch.Pager.Content.{content, IsBacked, IsApart}

module _ (m : Machine) where
  open m use {Page, Files, file_of, file_read, file_write, read-write_self, read-write_ne}

  -- A page that keeps its place, with the clock's bit cleared or not.
  content-Cleared :
      (s t : Pager Page Files) (v w : VirtualPage)
      → Cleared v w
      → t.memory ≡ s.memory
      → file_read t.files (backing v) (front v.blocks)
        ≡ file_read s.files (backing v) (front v.blocks)
      → content m t w ≡ content m s v
  unfolding content
  content-Cleared s t v w (inl e) h k = ground arith
  content-Cleared s t v w (inr (f, y, e)) h k = ground arith

  -- The save of a page changes no other page's block.
  pub saved_apart :
      (s : Pager Page Files) (v : VirtualPage) (f : PhysicalPage) (w : VirtualPage)
      → (file_of (backing v) ≢ file_of (backing w)) ⊎ (front v.blocks ≢ front w.blocks)
      → file_read (saved m s v f) (backing w) (front w.blocks)
        ≡ file_read s.files (backing w) (front w.blocks)
  saved_apart s v f w h = elim (Bool-cases f.dirty) [
    | inl e ↦ rw e (
        read-write_ne s.files (backing v) (backing w) (front v.blocks) (front w.blocks)
          (s.memory f.ppn) h)
    | inr e ↦ rw e refl
  ]

  saved_self :
      (s : Pager Page Files) (v : VirtualPage) (f : PhysicalPage) (x : Page)
      → file_read s.files (backing v) (front v.blocks) ≡ some x
      → (f.dirty ≡ false → x ≡ s.memory f.ppn)
      → file_read (saved m s v f) (backing v) (front v.blocks) ≡ some (s.memory f.ppn)
  saved_self s v f x e h = elim (Bool-cases f.dirty) [
    | inl d ↦ rw d (read-write_self s.files (backing v) (front v.blocks) (s.memory f.ppn) e)
    | inr d ↦ rw d (e ∙ ap some (h d))
  ]

  module _ {cap : ℕ} (s : Pager Page Files) (h : Framed cap s) (k : IsBacked m s) where
    victim_content :
        (p : ℕ) (t : Pager Page Files) (g : Given m cap s p t) (f : FromPage m s p t g.ppn)
        → content m t (t.pages f.victim) ≡ content m s (s.pages f.victim)
    unfolding content
    victim_content p t g f =
        let v = s.pages f.victim in
        let (x, e, c) = k f.victim f.frame f.had_frame (ground (arith, f.takes, g.ppn_pos)) in
        let in_memory : content m s v ≡ some (s.memory f.frame.ppn) =
          ground (arith, h.resident_iff f.victim, f.had_frame) in
        let on_block : content m t (evicted v)
            ≡ file_read (saved m s v f.frame) (backing v) (front v.blocks) =
          ap (λ d. file_read d (backing v) (front v.blocks)) f.saved_files in
        ap (content m t) f.is_evicted ∙ on_block ∙ saved_self s v f.frame x e c ∙ sym in_memory

    -- No page's data is lost when a page gets a frame.
    pub Given-content :
        (p : ℕ) (t : Pager Page Files)
        → Given m cap s p t
        → (q : ℕ) → IsApart m s q
        → q ≢ p
        → content m t (t.pages q) ≡ content m s (s.pages q)
    unfolding content
    Given-content p t g q a n = go g.from
      where
        same_memory : t.memory ≡ s.memory
        same_memory = ap (λ x. x.memory) g.only

        go :
            FromFree m s p t ⊎ FromPage m s p t g.ppn
            → content m t (t.pages q) ≡ content m s (s.pages q)
        go (inl f) =
            content-Cleared s t (s.pages q) (t.pages q) (inl (f.kept q n)) same_memory
              (ap (λ d. file_read d (backing (s.pages q)) (front (s.pages q).blocks)) f.same_files)
        go (inr f) = elim (Bool-cases (q == f.victim)) [
          | inl y ↦
              subst (λ x. content m t (t.pages x) ≡ content m s (s.pages x))
                (sym (==→≡ q f.victim y)) (victim_content p t g f)
          | inr y ↦
              content-Cleared s t (s.pages q) (t.pages q) (f.kept q n (ground arith)) same_memory (
                ap (λ d. file_read d (backing (s.pages q)) (front (s.pages q).blocks)) f.saved_files
                ∙ saved_apart s (s.pages f.victim) f.frame (s.pages q)
                    (a f.victim (ground arith) (ground (arith, f.had_frame, f.takes, g.ppn_pos))))
        ]

  -- The block of a page that is not in memory is as it was.
  pub Given-read :
      {cap : ℕ} (s : Pager Page Files) (p : ℕ) (t : Pager Page Files)
      → Given m cap s p t
      → (q : ℕ) → IsApart m s q
      → ppn_of (s.pages q) ≡ 0
      → file_read t.files (backing (s.pages q)) (front (s.pages q).blocks)
        ≡ file_read s.files (backing (s.pages q)) (front (s.pages q).blocks)
  Given-read s p t g q a z = go g.from
    where
      go :
          FromFree m s p t ⊎ FromPage m s p t g.ppn
          → file_read t.files (backing (s.pages q)) (front (s.pages q).blocks)
            ≡ file_read s.files (backing (s.pages q)) (front (s.pages q).blocks)
      go (inl f) =
          ap (λ d. file_read d (backing (s.pages q)) (front (s.pages q).blocks)) f.same_files
      go (inr f) =
          let pos : ppn_of (s.pages f.victim) ≢ 0 =
            ground (arith, f.had_frame, f.takes, g.ppn_pos) in
          ap (λ d. file_read d (backing (s.pages q)) (front (s.pages q).blocks)) f.saved_files
          ∙ saved_apart s (s.pages f.victim) f.frame (s.pages q)
              (a f.victim (λ y. pos (subst (λ x. ppn_of (s.pages x) ≡ 0) (sym y) z)) pos)
