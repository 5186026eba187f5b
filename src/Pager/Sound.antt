-- ===== src/Pager/Sound.antt =====
-- vm_pager.cpp: the calls and the frames.
pub mod Access
pub mod Fault
pub mod Map
pub mod Process
pub mod Name
pub mod Calls
pub mod Destroy
use os_from_scratch.Common.{
  ℕ, zero, suc, ◌<◌, ◌≤◌, ◌≡◌, ◌≢◌, List, [], ◌∷◌, Option, none, some, Bytes, All, update, arith,
  if◌then◌else◌, ◌==◌, inl, inr, refl, sym, subst, Bool, ◌∙◌, Bool-cases,
}
use os_from_scratch.Pager.{
  Pte, VirtualPage, Pager, find_va, insert_va, vas_of, put_page, map_va, touch, vm_arena_maxaddr,
}
use os_from_scratch.Pager.Fault.{ppn_of}
use os_from_scratch.Pager.Frames.{Framed, Resident}
use os_from_scratch.Pager.Frames.Changes.{keep-IsFramed, new-IsFramed}

-- Addresses of the arena are mapped to pages that are there.
abbrev pub Maps : ℕ → List (ℕ × ℕ) → Type 0
Maps next l = All (λ e. (e.0 < vm_arena_maxaddr) × (e.1 < next)) l

-- Every frame is accounted for, and every pointer to a page is good.
pub record IsSound {Page Files : Type 0} (cap : ℕ) (s : Pager Page Files) : Type 0 where
  pub framed : Framed cap s
  pub mapped : (pid : ℕ) → Maps s.next_page (vas_of (s.translate_va pid))
  pub named :
      (name : Bytes) (block : ℕ) {p : ℕ}
      → s.filename_block_to_vpage name block ≡ some p
      → p < s.next_page

pub find_va-Maps :
    (next va : ℕ) (l : List (ℕ × ℕ)) {p : ℕ}
    → Maps next l
    → find_va va l ≡ some p
    → (va < vm_arena_maxaddr) × (p < next)
unfolding find_va
find_va-Maps next va [] h e = absurd (ground arith)
find_va-Maps next va ((a, q) ∷ l) h e = elim (Bool-cases (a == va)) [
  | inl y ↦ (ground (arith, h.0.0), ground (arith, h.0.1))
  | inr y ↦ find_va-Maps next va l h.1 (sym (rw y refl) ∙ e)
]

pub insert_va-Maps :
    (next va p : ℕ) (l : List (ℕ × ℕ))
    → va < vm_arena_maxaddr
    → p < next
    → Maps next l
    → Maps next (insert_va va p l)
unfolding insert_va
insert_va-Maps next va p [] b h m = ((b, h), tt)
insert_va-Maps next va p ((a, q) ∷ l) b h m = elim (Bool-cases (a == va)) [
  | inl e ↦ rw e ((b, h), m.1)
  | inr e ↦ rw e (m.0, insert_va-Maps next va p l b h m.1)
]

pub Maps-le : (n k : ℕ) (l : List (ℕ × ℕ)) → n ≤ k → Maps n l → Maps k l
Maps-le n k [] h m = tt
Maps-le n k (e ∷ l) h m = ((m.0.0, omega (arith, m.0.1)), Maps-le n k l h m.1)

module _ {Page Files : Type 0} where
  -- What a call does to a sound state: it is sound after it, and no page has gone.
  abbrev pub StaysSound : ℕ → Pager Page Files → Pager Page Files → Type 0
  StaysSound cap s t = IsSound cap t × (s.next_page ≤ t.next_page)

  pub StaysSound-trans :
      {cap : ℕ} (s t u : Pager Page Files)
      → StaysSound cap s t
      → StaysSound cap t u
      → StaysSound cap s u
  StaysSound-trans s t u (h, l) (k, l') = (k, omega arith)

  module _ {cap : ℕ} (s : Pager Page Files) (h : IsSound cap s) where
    pub same_maps-IsSound :
        (t : Pager Page Files)
        → Framed cap t
        → t.translate_va ≡ s.translate_va
        → s.next_page ≤ t.next_page
        → ((name : Bytes) (block p : ℕ)
            → t.filename_block_to_vpage name block ≡ some p
            → s.filename_block_to_vpage name block ≡ some p)
        → StaysSound cap s t
    same_maps-IsSound t f e l n = (
      record {
        framed = f;
        mapped = λ pid.
            Maps-le s.next_page t.next_page (vas_of (t.translate_va pid)) l
              (subst (λ x. Maps s.next_page (vas_of (x pid))) (sym e) (h.mapped pid));
        named = λ name block y. omega (arith, h.named name block (n name block _ y), l);
      },
      l,
    )

    -- A page changes that keeps its physical page and the flag for it.
    pub keep-IsSound :
        (p : ℕ) (v : VirtualPage)
        → v.physical_page ≡ (s.pages p).physical_page
        → v.resident ≡ (s.pages p).resident
        → IsSound cap (put_page s p v)
    keep-IsSound p v e r = record {
      framed = keep-IsFramed h.framed p v e r;
      mapped = h.mapped;
      named = h.named;
    }

    pub map_va-IsSound :
        (pid va p : ℕ) → va < vm_arena_maxaddr → p < s.next_page → IsSound cap (map_va s pid va p)
    map_va-IsSound pid va p b l = record {
      framed = h.framed;
      mapped = λ q. elim (Bool-cases (q == pid)) [
        | inl e ↦ rw e (insert_va-Maps s.next_page va p _ b l (h.mapped pid))
        | inr e ↦ rw e (h.mapped q)
      ];
      named = h.named;
    }

    pub touch-IsSound : (pid : ℕ) → IsSound cap (touch s pid)
    touch-IsSound pid = record {
      framed = h.framed;
      mapped = λ q. elim (Bool-cases (q == pid)) [
        | inl e ↦ rw e (h.mapped pid)
        | inr e ↦ rw e (h.mapped q)
      ];
      named = h.named;
    }

    -- A page with a new number.
    pub new-IsSound :
        (v : VirtualPage)
        → ppn_of v ≡ 0
        → Resident v
        → IsSound cap (record (put_page s s.next_page v) { next_page = suc s.next_page })
    new-IsSound v e r = record {
      framed = new-IsFramed h.framed v e r;
      mapped = λ pid. Maps-le _ _ (vas_of (s.translate_va pid)) (omega arith) (h.mapped pid);
      named = λ name block y. omega (arith, h.named name block y);
    }

    -- The asserts and the page table entries.
    pub pte-IsSound :
        (tables : ℕ → Option (ℕ → Pte)) (ok : Bool)
        → IsSound cap (record s { process_table = tables; aborted = ok })
    pte-IsSound tables ok = record { framed = h.framed; mapped = h.mapped; named = h.named }
