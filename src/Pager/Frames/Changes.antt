-- ===== src/Pager/Frames/Changes.antt =====
-- vm_pager.cpp: the changes of frames that the operations make, one at a time.
use os_from_scratch.Common.{
  ℕ, suc, ◌<◌, ◌≤◌, ◌≡◌, ◌≢◌, false, List, [], ◌∷◌, ◌++◌, none, update, arith, length-append,
}
use os_from_scratch.Pager.{VirtualPage}
use os_from_scratch.Pager.Clock.{erase, is_queued}
use os_from_scratch.Pager.Fault.{ppn_of}
use os_from_scratch.Pager.Frames.{
  distinct, Frames, Resident, IsFramed, is_queued-append, distinct-append_one, is_queued-erase,
  distinct-erase, length-erase,
}

module _ {cap : ℕ} {pages : ℕ → VirtualPage} {clock free : List ℕ} {next : ℕ}
    (h : Frames cap pages clock free next) where
  -- A page changes and keeps its frame.
  pub same-Frames :
      (p : ℕ) (v : VirtualPage)
      → ppn_of v ≡ ppn_of (pages p)
      → (next ≤ p → v.physical_page ≡ none)
      → Frames cap (update pages p v) clock free next
  same-Frames p v e f = record {
    queued_iff = λ q. ground (arith, h.queued_iff q);
    once = h.once;
    unshared = λ q r. ground (arith, h.unshared q r);
    bounded = λ q. ground (arith, h.bounded q);
    free_bounded = h.free_bounded;
    unheld = λ x q. ground (arith, h.unheld x q);
    free_once = h.free_once;
    counted = h.counted;
    fresh = λ q l. ground (arith, h.fresh q l);
  }

  -- The first of the clock goes to its back.
  pub turn-Frames :
      (p : ℕ) (rest : List ℕ) → clock ≡ p ∷ rest → Frames cap pages (rest ++ p ∷ []) free next
  unfolding is_queued distinct
  turn-Frames p rest e = record {
    queued_iff = λ q. ground (arith, h.queued_iff q, is_queued-append q rest (p ∷ []));
    once = ground (arith, h.once, distinct-append_one rest p);
    unshared = h.unshared;
    bounded = h.bounded;
    free_bounded = h.free_bounded;
    unheld = h.unheld;
    free_once = h.free_once;
    counted = ground (arith, h.counted, length-append rest (p ∷ []));
    fresh = h.fresh;
  }

  -- A page with no frame gets a free one.
  pub take-Frames :
      (p ppn : ℕ) (rest : List ℕ) (v : VirtualPage)
      → free ≡ ppn ∷ rest
      → ppn_of (pages p) ≡ 0
      → p < next
      → ppn_of v ≡ ppn
      → Frames cap (update pages p v) (clock ++ p ∷ []) rest next
  unfolding is_queued distinct
  take-Frames p ppn rest v e z l f = record {
    queued_iff =
        λ q. ground (arith, h.queued_iff q, is_queued-append q clock (p ∷ []), h.free_bounded ppn);
    once = ground (arith, h.once, distinct-append_one clock p, h.queued_iff p);
    unshared = λ q r. ground (arith, h.unshared q r, h.unheld ppn q, h.unheld ppn r);
    bounded = λ q. ground (arith, h.bounded q, h.free_bounded ppn);
    free_bounded = λ x. ground (arith, h.free_bounded x);
    unheld = λ x q. ground (arith, h.unheld x q, h.free_once);
    free_once = ground (arith, h.free_once);
    counted = ground (arith, h.counted, length-append clock (p ∷ []));
    fresh = λ q k. ground (arith, h.fresh q k);
  }

  -- A page gives its frame back.
  pub give-Frames :
      (p ppn : ℕ) (v : VirtualPage)
      → ppn_of (pages p) ≡ ppn
      → ppn ≢ 0
      → v.physical_page ≡ none
      → Frames cap (update pages p v) (erase p clock) (free ++ ppn ∷ []) next
  unfolding is_queued
  give-Frames p ppn v e z f = record {
    queued_iff = λ q. ground (arith, h.queued_iff q, is_queued-erase p q clock h.once);
    once = distinct-erase p clock h.once;
    unshared = λ q r. ground (arith, h.unshared q r);
    bounded = λ q. ground (arith, h.bounded q);
    free_bounded =
        λ x. ground (arith, h.free_bounded x, h.bounded p, is_queued-append x free (ppn ∷ []));
    unheld = λ x q.
        ground (
          arith,
          h.unheld x q,
          h.unshared p q,
          h.free_bounded x,
          is_queued-append x free (ppn ∷ []),
        );
    free_once = ground (arith, h.free_once, distinct-append_one free ppn, h.unheld ppn p);
    counted =
        ground
          (arith, h.counted, length-append free (ppn ∷ []), length-erase p clock, h.queued_iff p);
    fresh = λ q k. ground (arith, h.fresh q k);
  }

  -- A page with no frame gets that of the first of the clock.
  pub steal-Frames :
      (e p : ℕ) (rest : List ℕ) (v w : VirtualPage)
      → clock ≡ e ∷ rest
      → ppn_of (pages p) ≡ 0
      → p < next
      → ppn_of v ≡ ppn_of (pages e)
      → w.physical_page ≡ none
      → Frames cap (update (update pages p v) e w) (rest ++ p ∷ []) free next
  unfolding is_queued distinct
  steal-Frames e p rest v w k z l f g = record {
    queued_iff = λ q.
        ground (arith, h.queued_iff q, h.queued_iff e, h.once, is_queued-append q rest (p ∷ []));
    once = ground (arith, h.once, distinct-append_one rest p, h.queued_iff p);
    unshared =
        λ q r. ground (arith, h.unshared q r, h.unshared e r, h.unshared e q, h.queued_iff e);
    bounded = λ q. ground (arith, h.bounded q, h.bounded e);
    free_bounded = h.free_bounded;
    unheld = λ x q. ground (arith, h.unheld x q, h.unheld x e, h.queued_iff e, h.free_bounded x);
    free_once = h.free_once;
    counted = ground (arith, h.counted, length-append rest (p ∷ []));
    fresh = λ q m. ground (arith, h.fresh q m);
  }

-- A number is given out to a page with no frame.
pub new-Frames :
    {cap : ℕ} {pages : ℕ → VirtualPage} {clock free : List ℕ} {next : ℕ}
    → Frames cap pages clock free next
    → (v : VirtualPage) → ppn_of v ≡ 0
    → Frames cap (update pages next v) clock free (suc next)
new-Frames {cap} {pages} {clock} {free} {next} h v e =
    same-Frames {next = suc next}
      (record {
        queued_iff = h.queued_iff;
        once = h.once;
        unshared = h.unshared;
        bounded = h.bounded;
        free_bounded = h.free_bounded;
        unheld = h.unheld;
        free_once = h.free_once;
        counted = h.counted;
        fresh = λ p l. h.fresh p (omega arith);
      })
      next v (ground (arith, h.fresh next)) (λ l. absurd (omega arith))

module _ {cap : ℕ} {pages : ℕ → VirtualPage} {clock free : List ℕ} {next : ℕ}
    (h : IsFramed cap pages clock free next) where
  pub same-IsFramed :
      (p : ℕ) (v : VirtualPage)
      → ppn_of v ≡ ppn_of (pages p)
      → Resident v
      → (next ≤ p → v.physical_page ≡ none)
      → IsFramed cap (update pages p v) clock free next
  same-IsFramed p v e r f = record {
    frames = same-Frames h.frames p v e f;
    resident_iff = λ q. ground (arith, h.resident_iff q);
  }

  -- A page that keeps its physical page, and the flag for it.
  pub keep-IsFramed :
      (p : ℕ) (v : VirtualPage)
      → v.physical_page ≡ (pages p).physical_page
      → v.resident ≡ (pages p).resident
      → IsFramed cap (update pages p v) clock free next
  keep-IsFramed p v e r =
      same-IsFramed p v (ground arith) (ground (arith, h.resident_iff p))
        (λ l. ground (arith, h.frames.fresh p l))

  pub new-IsFramed :
      (v : VirtualPage)
      → ppn_of v ≡ 0
      → Resident v
      → IsFramed cap (update pages next v) clock free (suc next)
  new-IsFramed v e r = record {
    frames = new-Frames h.frames v e;
    resident_iff = λ q. ground (arith, h.resident_iff q);
  }

  pub give-IsFramed :
      (p ppn : ℕ) (v : VirtualPage)
      → ppn_of (pages p) ≡ ppn
      → ppn ≢ 0
      → v.physical_page ≡ none
      → v.resident ≡ false
      → IsFramed cap (update pages p v) (erase p clock) (free ++ ppn ∷ []) next
  give-IsFramed p ppn v e z f r = record {
    frames = give-Frames h.frames p ppn v e z f;
    resident_iff = λ q. ground (arith, h.resident_iff q);
  }
