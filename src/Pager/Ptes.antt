-- ===== src/Pager/Ptes.antt =====
-- Page.cpp, VirtualPage::updatePTEs.
use os_from_scratch.Common.{
  ℕ, ◌%◌, Bool, true, false, not, ◌&&◌, ◌||◌, List, [], ◌∷◌, Option, none, some, ◌==◌,
  if◌then◌else◌, length, update,
}
use os_from_scratch.Pager.{
  Pte, PtePtr, PhysicalPage, VirtualPage, Pager, ppage_limit, is_empty, check,
}

-- `r` and `w`, for a page that is resident.
unfoldable pub enables_for : VirtualPage → PhysicalPage → Bool × Bool
enables_for v f =
    if not v.resident || not f.clocked
    then (false, false)
    else if not v.is_swap
    then (if f.dirty then (true, true) else (true, false))
    else if length v.affiliated == 1
    then (if f.dirty then (true, true) else (true, false))
    else (true, false)

unfoldable pub enables : VirtualPage → Bool × Bool
unfolding enables_for
enables v = elim v.physical_page [ none ↦ (false, false) | some f ↦ enables_for v f ]

-- The asserts, and that the physical page of a resident page is not null.
unfoldable pub can_update : VirtualPage → Bool
can_update v = not (is_empty v.affiliated) && elim v.physical_page [
  | none ↦ not v.resident
  | some f ↦ not (v.resident && f.clocked && v.is_swap) || length v.affiliated == length v.blocks
]

unfoldable pub write_pte : Bool × Bool → Option PhysicalPage → Pte → Pte
write_pte (r, w) none pte = record pte { read_enable = r; write_enable = w }
write_pte (r, w) (some f) pte = record {
  ppage = f.ppn % ppage_limit;
  read_enable = r;
  write_enable = w;
}

-- A write through a pointer into the table of `process`, if there is one.
unfoldable pub write_through : (Pte → Pte) → PtePtr → (ℕ → Option (ℕ → Pte)) → ℕ → Option (ℕ → Pte)
write_through change ptr tables = update tables ptr.process (elim (tables ptr.process) [
  | none ↦ none
  | some t ↦ some (update t ptr.index (change (t ptr.index)))
])

-- The loop over `affiliated`.
unfoldable pub write_all : (Pte → Pte) → List PtePtr → (ℕ → Option (ℕ → Pte)) → ℕ → Option (ℕ → Pte)
unfolding write_through
write_all change [] tables = tables
write_all change (ptr ∷ ptrs) tables = write_all change ptrs (write_through change ptr tables)

module _ {Page Files : Type 0} where
  unfoldable pub update_ptes : Pager Page Files → VirtualPage → Pager Page Files
  update_ptes s v = record (check s (can_update v)) {
    process_table = write_all (write_pte (enables v) v.physical_page) v.affiliated s.process_table;
  }

  -- `if (!affiliated.empty()) updatePTEs()`.
  unfoldable pub update_ptes_if_any : Pager Page Files → VirtualPage → Pager Page Files
  unfolding update_ptes
  update_ptes_if_any s v = if is_empty v.affiliated then s else update_ptes s v
