-- ===== src/Pager/Grants.antt =====
-- Page.cpp, updatePTEs, and vm_fault: what the page table entries say afterwards.
pub mod Access
pub mod Fault
use os_from_scratch.Common.{
  ℕ, zero, suc, ◌-◌, ◌%◌, ◌<◌, ◌≤◌, ◌≡◌, ◌≢◌, ◌⊎◌, inl, inr, refl, sym, subst, ap, ◌∙◌, Bool, true,
  false, not, ◌||◌, ◌&&◌, ltb, List, [], ◌∷◌, Option, none, some, Bytes, ◌==◌, if◌then◌else◌,
  update, arith, length, Bool-cases, Option-cases, both_branches, ==_refl, ==_ne, ==→≡, ltb→lt,
}
use os_from_scratch.Pager.{
  Pte, PtePtr, PhysicalPage, VirtualPage, Machine, Pager, same_pte, ppage_limit, is_empty,
  va_to_pte, find_va, vas_of, vm_pagesize, vm_arena_maxaddr,
}
use os_from_scratch.Pager.Ptes.{
  enables_for, enables, can_update, write_pte, write_through, write_all, update_ptes,
}
use os_from_scratch.Pager.Fault.{ppn_of, has_ptr}

-- The entry, if its table is there, is `x`.
abbrev Holds : PtePtr → Pte → (ℕ → Option (ℕ → Pte)) → Type 0
Holds ptr x tables = (table : ℕ → Pte) → tables ptr.process ≡ some table → table ptr.index ≡ x

module _ (change : Pte → Pte) (x : Pte) (k : (pte : Pte) → change pte ≡ x) (ptr : PtePtr) where
  write_through_self :
      (q : PtePtr) (tables : ℕ → Option (ℕ → Pte))
      → same_pte q ptr ≡ true
      → Holds ptr x (write_through change q tables)
  unfolding write_through
  write_through_self q tables e table h = elim (Option-cases (tables q.process)) [
    | inl y ↦ absurd (ground arith)
    | inr (t, y) ↦ ground (arith, k (t q.index))
  ]

  write_through_other :
      (q : PtePtr) (tables : ℕ → Option (ℕ → Pte))
      → Holds ptr x tables
      → Holds ptr x (write_through change q tables)
  unfolding write_through
  write_through_other q tables g table h = elim (Bool-cases (ptr.process == q.process)) [
    | inl z ↦ elim (Option-cases (tables q.process)) [
      | inl y ↦ absurd (ground arith)
      | inr (t, y) ↦ ground (arith, k (t q.index), g t)
    ]
    | inr z ↦ g table (ground arith)
  ]

  write_all_other :
      (ptrs : List PtePtr) (tables : ℕ → Option (ℕ → Pte))
      → Holds ptr x tables
      → Holds ptr x (write_all change ptrs tables)
  unfolding write_all
  write_all_other [] tables g = g
  write_all_other (q ∷ ptrs) tables g =
      write_all_other ptrs (write_through change q tables) (write_through_other q tables g)

  write_all_lem :
      (ptrs : List PtePtr) (tables : ℕ → Option (ℕ → Pte))
      → has_ptr ptr ptrs ≡ true
      → Holds ptr x (write_all change ptrs tables)
  unfolding write_all has_ptr
  write_all_lem [] tables e = absurd (ground arith)
  write_all_lem (q ∷ ptrs) tables e = elim (Bool-cases (same_pte q ptr)) [
    | inl y ↦ write_all_other ptrs (write_through change q tables) (write_through_self q tables y)
    | inr y ↦ write_all_lem ptrs (write_through change q tables) (ground arith)
  ]

-- The entry that a page in memory has.
abbrev pub entry_of : VirtualPage → PhysicalPage → Pte
entry_of v f = record {
  ppage = f.ppn % ppage_limit;
  read_enable = (enables v).0;
  write_enable = (enables v).1;
}

pub update_ptes-Holds :
    {Page Files : Type 0} (s : Pager Page Files) (v : VirtualPage) (f : PhysicalPage) (ptr : PtePtr)
    → v.physical_page ≡ some f
    → has_ptr ptr v.affiliated ≡ true
    → Holds ptr (entry_of v f) (update_ptes s v).process_table
unfolding update_ptes write_pte
update_ptes-Holds s v f ptr e h =
    write_all_lem (write_pte (enables v) v.physical_page) (entry_of v f)
      (λ pte. ap (λ x. write_pte (enables v) x pte) e) ptr v.affiliated s.process_table h

-- A page in memory whose bit is set can be read, and written if it is dirty and not shared.
pub enables_lem :
    (v : VirtualPage) (f : PhysicalPage)
    → v.physical_page ≡ some f
    → v.resident ≡ true
    → f.clocked ≡ true
    → ((enables v).0 ≡ true)
      × (f.dirty ≡ true → (v.is_swap ≡ true → length v.affiliated ≡ 1) → (enables v).1 ≡ true)
unfolding enables enables_for
enables_lem v f e r c = (ground (arith, e, r, c), λ d l. ground (arith, e, r, c, d, l))
