-- ===== src/Pager/Frames/Disabled.antt =====
-- Page.cpp, updatePTEs, in evict_and_replace: the entries of a page that loses its frame.
use os_from_scratch.Common.{
  ℕ, ◌≡◌, inl, inr, refl, true, false, not, ◌&&◌, List, [], ◌∷◌, Option, none, some, ◌==◌, arith,
  Bool-cases, Option-cases, ◌++◌, both_branches,
}
use os_from_scratch.Pager.{
  Pte, PtePtr, PhysicalPage, VirtualPage, Machine, Pager, same_pte, is_empty,
  remove_from_filename_block, put_page,
}
use os_from_scratch.Pager.Ptes.{
  enables, write_pte, write_through, write_all, update_ptes, update_ptes_if_any,
}
use os_from_scratch.Pager.Clock.{with_frame, write_back, replace}
use os_from_scratch.Pager.Fault.{has_ptr}

-- A process that uses the entry, if its table is there, faults.
abbrev pub Disabled : PtePtr → (ℕ → Option (ℕ → Pte)) → Type 0
Disabled ptr tables =
    (table : ℕ → Pte)
    → tables ptr.process ≡ some table
    → ((table ptr.index).read_enable ≡ false) × ((table ptr.index).write_enable ≡ false)

module _ (change : Pte → Pte)
    (off : (pte : Pte) → ((change pte).read_enable ≡ false) × ((change pte).write_enable ≡ false))
    (ptr : PtePtr) where
  through_self :
      (q : PtePtr) (tables : ℕ → Option (ℕ → Pte))
      → same_pte q ptr ≡ true
      → Disabled ptr (write_through change q tables)
  unfolding write_through
  through_self q tables e table h = elim (Option-cases (tables q.process)) [
    | inl y ↦ absurd (ground arith)
    | inr (t, y) ↦ ground (arith, off (t q.index))
  ]

  through_other :
      (q : PtePtr) (tables : ℕ → Option (ℕ → Pte))
      → Disabled ptr tables
      → Disabled ptr (write_through change q tables)
  unfolding write_through
  through_other q tables g table h = elim (Bool-cases (ptr.process == q.process)) [
    | inl z ↦ elim (Option-cases (tables q.process)) [
      | inl y ↦ absurd (ground arith)
      | inr (t, y) ↦ ground (arith, off (t q.index), g t)
    ]
    | inr z ↦ g table (ground arith)
  ]

  all_other :
      (ptrs : List PtePtr) (tables : ℕ → Option (ℕ → Pte))
      → Disabled ptr tables
      → Disabled ptr (write_all change ptrs tables)
  unfolding write_all
  all_other [] tables g = g
  all_other (q ∷ ptrs) tables g =
      all_other ptrs (write_through change q tables) (through_other q tables g)

  all-Disabled :
      (ptrs : List PtePtr) (tables : ℕ → Option (ℕ → Pte))
      → has_ptr ptr ptrs ≡ true
      → Disabled ptr (write_all change ptrs tables)
  unfolding write_all has_ptr
  all-Disabled [] tables e = absurd (ground arith)
  all-Disabled (q ∷ ptrs) tables e = elim (Bool-cases (same_pte q ptr)) [
    | inl y ↦ all_other ptrs (write_through change q tables) (through_self q tables y)
    | inr y ↦ all-Disabled ptrs (write_through change q tables) (ground arith)
  ]

has_ptr_some : (ptr : PtePtr) (ptrs : List PtePtr) → has_ptr ptr ptrs ≡ true → is_empty ptrs ≡ false
unfolding has_ptr
has_ptr_some ptr [] e = absurd (ground arith)
has_ptr_some ptr (x ∷ xs) e = refl

if_any-Disabled :
    {Page Files : Type 0} (s : Pager Page Files) (v : VirtualPage) (ptr : PtePtr)
    → v.physical_page ≡ none
    → has_ptr ptr v.affiliated ≡ true
    → Disabled ptr (update_ptes_if_any s v).process_table
unfolding update_ptes_if_any update_ptes enables write_pte
if_any-Disabled s v ptr e h =
    rw (has_ptr_some ptr v.affiliated h, e)
      (all-Disabled (write_pte (false, false) none) (λ pte. (refl, refl)) ptr v.affiliated
        s.process_table h)

module _ (m : Machine) where
  open m use {Page, Files}

  pub replace-Disabled :
      (s : Pager Page Files) (e : ℕ) (f : PhysicalPage) (rest : List ℕ) (p : ℕ) (ptr : PtePtr)
      → has_ptr ptr (s.pages e).affiliated ≡ true
      → Disabled ptr (replace m s e f rest p).process_table
  unfolding replace remove_from_filename_block
  replace-Disabled s e f rest p ptr h =
      let v = record (s.pages e) { resident = false; physical_page = none } in
      let w = with_frame (s.pages p) f.ppn in
      let s2 = update_ptes (put_page (write_back m s (s.pages e) f) p w) w in
      let s3 = put_page (record s2 { clock_queue = rest ++ p ∷ [] }) e v in
      let r = if_any-Disabled s3 v ptr refl h in
      both_branches (λ (t : Pager Page Files). Disabled ptr t.process_table)
        (not v.is_swap && is_empty v.affiliated) r r
