-- ===== src/Pager/Content/Kept.antt =====
-- vm_pager.cpp: what the other pages keep while a page gets a frame.
use os_from_scratch.Common.{
  ℕ, ◌≡◌, ◌≢◌, ◌⊎◌, inl, inr, refl, sym, subst, ap, ◌∙◌, true, some, ◌==◌, arith, Bool-cases, ==→≡,
}
use os_from_scratch.Pager.{PhysicalPage, VirtualPage, Machine, Pager, front}
use os_from_scratch.Pager.Clock.{backing}
use os_from_scratch.Pager.Fault.{ppn_of}
use os_from_scratch.Pager.Frames.Turn.{Cleared}
use os_from_scratch.Pager.Frames.Replace.{evicted, Given, FromFree, FromPage}
use os_from_scratch.Pager.Content.{IsApart}
use os_from_scratch.Pager.Content.Evict.{saved_apart}

-- What a page keeps while another gets a frame: its block, and its frame if it still has one.
pub record Kept (v w : VirtualPage) : Type 0 where
  pub same_backing : backing w ≡ backing v
  pub same_blocks : w.blocks ≡ v.blocks
  pub same_frame :
      (f : PhysicalPage)
      → w.physical_page ≡ some f
      → (g : PhysicalPage) × (v.physical_page ≡ some g) × (g.ppn ≡ f.ppn) × (g.dirty ≡ f.dirty)
  pub same_resident : w.resident ≡ true → v.resident ≡ true

pub Cleared-Kept : (v w : VirtualPage) → Cleared v w → Kept v w
Cleared-Kept v w (inl e) = record {
  same_backing = ap backing e;
  same_blocks = ap (λ x. x.blocks) e;
  same_frame = λ f y. (f, ground arith, refl, refl);
  same_resident = λ y. ground arith;
}
Cleared-Kept v w (inr (g, y, e)) = record {
  same_backing = ap backing e;
  same_blocks = ap (λ x. x.blocks) e;
  same_frame = λ f z. (g, y, ground arith, ground arith);
  same_resident = λ z. ground arith;
}

evicted-Kept : (v w : VirtualPage) → w ≡ evicted v → Kept v w
evicted-Kept v w e = record {
  same_backing = ap backing e;
  same_blocks = ap (λ x. x.blocks) e;
  same_frame = λ f y. absurd (ground arith);
  same_resident = λ y. absurd (ground arith);
}

module _ (m : Machine) where
  open m use {Page, Files, zero_page, file_read, file_of}

  -- Two pages are on different blocks, or in different files, whatever their names.
  abbrev pub Differ : VirtualPage → VirtualPage → Type 0
  Differ v w = (file_of (backing v) ≢ file_of (backing w)) ⊎ (front v.blocks ≢ front w.blocks)

  pub Differ-Kept : {v v' w w' : VirtualPage} → Kept v v' → Kept w w' → Differ v w → Differ v' w'
  Differ-Kept h k (inl y) =
      inl (λ w. y (ap file_of (sym h.same_backing) ∙ w ∙ ap file_of k.same_backing))
  Differ-Kept h k (inr y) = inr (λ w. y (ap front (sym h.same_blocks) ∙ w ∙ ap front k.same_blocks))

  pub Given-Kept :
      {cap : ℕ} (s : Pager Page Files) (p : ℕ) (t : Pager Page Files)
      → Given m cap s p t
      → (q : ℕ) → q ≢ p
      → Kept (s.pages q) (t.pages q)
  Given-Kept s p t g q n = go g.from
    where
      go : FromFree m s p t ⊎ FromPage m s p t g.ppn → Kept (s.pages q) (t.pages q)
      go (inl f) = Cleared-Kept _ _ (inl (f.kept q n))
      go (inr f) = elim (Bool-cases (q == f.victim)) [
        | inl y ↦
            subst (λ x. Kept (s.pages x) (t.pages x)) (sym (==→≡ q f.victim y))
              (evicted-Kept _ _ f.is_evicted)
        | inr y ↦ Cleared-Kept _ _ (f.kept q n (ground arith))
      ]

  -- The block of a page that has kept its frame is as it was.
  pub Given-kept-read :
      {cap : ℕ} (s : Pager Page Files) (p : ℕ) (t : Pager Page Files)
      → Given m cap s p t
      → (q : ℕ) → IsApart m s q
      → q ≢ p
      → ppn_of (t.pages q) ≢ 0
      → file_read t.files (backing (s.pages q)) (front (s.pages q).blocks)
        ≡ file_read s.files (backing (s.pages q)) (front (s.pages q).blocks)
  Given-kept-read s p t g q a n z = go g.from
    where
      go :
          FromFree m s p t ⊎ FromPage m s p t g.ppn
          → file_read t.files (backing (s.pages q)) (front (s.pages q).blocks)
            ≡ file_read s.files (backing (s.pages q)) (front (s.pages q).blocks)
      go (inl f) =
          ap (λ d. file_read d (backing (s.pages q)) (front (s.pages q).blocks)) f.same_files
      go (inr f) =
          ap (λ d. file_read d (backing (s.pages q)) (front (s.pages q).blocks)) f.saved_files
          ∙ saved_apart m s (s.pages f.victim) f.frame (s.pages q) (
              a f.victim (λ y. z (ap (λ x. ppn_of (t.pages x)) (sym y) ∙ ap ppn_of f.is_evicted))
                (ground (arith, f.had_frame, f.takes, g.ppn_pos)))
