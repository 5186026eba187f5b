-- ===== src/Pager/Clock.antt =====
-- vm_pager.cpp: the clock of the physical pages that are in use, and who gets them.
use os_from_scratch.Common.{
  ℕ, zero, suc, Bool, true, false, not, ◌&&◌, ◌||◌, List, [], ◌∷◌, ◌++◌, Option, none, some, Bytes,
  ◌==◌, if◌then◌else◌, length,
}
use os_from_scratch.Pager.{
  PhysicalPage, VirtualPage, Machine, Pager, is_empty, front, put_page, check,
  remove_from_filename_block,
}
use os_from_scratch.Pager.Ptes.{update_ptes, update_ptes_if_any}

-- `nullptr` or the name, as file_read and file_write take it.
abbrev pub backing : VirtualPage → Option Bytes
backing v = if v.is_swap then none else some v.filename

-- find and erase: the first that is equal goes.
unfoldable pub erase : ℕ → List ℕ → List ℕ
erase p [] = []
erase p (x ∷ xs) = if x == p then xs else x ∷ erase p xs

unfoldable pub is_queued : ℕ → List ℕ → Bool
is_queued p [] = false
is_queued p (x ∷ xs) = x == p || is_queued p xs

abbrev pub with_frame : VirtualPage → ℕ → VirtualPage
with_frame v ppn = record v {
  physical_page = some (record { ppn = ppn; clocked = true; dirty = false });
}

module _ {Page Files : Type 0} where
  -- The page at the front has its bit cleared and goes to the back.
  unfoldable pub rotate : Pager Page Files → ℕ → PhysicalPage → List ℕ → Pager Page Files
  rotate s p f rest =
      let v = record (s.pages p) { physical_page = some (record f { clocked = false }) } in
      let s' = update_ptes_if_any (put_page s p v) v in record s' { clock_queue = rest ++ p ∷ [] }

  -- The loop, up to the break; it is on fuel.
  unfoldable pub sweep : ℕ → Pager Page Files → Pager Page Files
  unfolding rotate
  sweep zero s = check s false
  sweep (suc fuel) s = elim s.clock_queue [
    | [] ↦ check s false
    | p ∷ rest ↦ elim (s.pages p).physical_page [
      | none ↦ check s false
      | some f ↦ elim f.clocked [ true ↦ sweep fuel (rotate s p f rest) | false ↦ s ]
    ]
  ]

module _ (m : Machine) where
  open m use {Page, Files, file_write}

  -- A dirty page is written to its block.
  unfoldable pub write_back : Pager Page Files → VirtualPage → PhysicalPage → Pager Page Files
  write_back s v f = record s {
    files =
        if f.dirty
        then file_write s.files (backing v) (front v.blocks) (s.memory f.ppn)
        else s.files;
  }

  -- The page `e`, which has frame `f`, gives it to the page `p`.
  unfoldable pub replace : Pager Page Files → ℕ → PhysicalPage → List ℕ → ℕ → Pager Page Files
  unfolding write_back
  replace s e f rest p =
      let v = s.pages e in
      let s1 = write_back s v f in
      let w = with_frame (s.pages p) f.ppn in
      let s2 = update_ptes (put_page s1 p w) w in
      let v' = record v { resident = false; physical_page = none } in
      let s3 = put_page (record s2 { clock_queue = rest ++ p ∷ [] }) e v' in
      let s4 = update_ptes_if_any s3 v' in
      if not v.is_swap && is_empty v.affiliated then remove_from_filename_block s4 v' else s4

  unfoldable pub evict_front : Pager Page Files → List ℕ → ℕ → Pager Page Files
  evict_front s [] p = check s false
  evict_front s (e ∷ rest) p = elim (s.pages e).physical_page [
    | none ↦ check s false
    | some f ↦ replace s e f rest p
  ]

  -- The clock goes round once at most before it finds a page whose bit is clear.
  unfoldable pub evict_and_replace : Pager Page Files → ℕ → Pager Page Files
  unfolding sweep evict_front replace
  evict_and_replace s p =
      let s' = sweep (suc (length s.clock_queue)) s in evict_front s' s'.clock_queue p

  unfoldable pub frame_from : Pager Page Files → ℕ → List ℕ → Pager Page Files
  unfolding evict_and_replace
  frame_from s p [] = evict_and_replace s p
  frame_from s p (ppn ∷ free) = record (put_page s p (with_frame (s.pages p) ppn)) {
    next_free_ppn = free;
    clock_queue = s.clock_queue ++ p ∷ [];
  }

  unfoldable pub give_new_ppn : Pager Page Files → ℕ → Pager Page Files
  unfolding frame_from
  give_new_ppn s p =
      let v = record (s.pages p) {
        physical_page = some (record { ppn = 0; clocked = false; dirty = false });
      } in
      let s' = frame_from (put_page s p v) p s.next_free_ppn in
      put_page s' p (record (s'.pages p) { resident = true })

  unfoldable pub return_frame : Pager Page Files → ℕ → Option PhysicalPage → Pager Page Files
  unfolding erase is_queued
  return_frame s p none = check s false
  return_frame s p (some f) =
      let s1 = check s (is_queued p s.clock_queue) in
      let v = record (s.pages p) { resident = false; physical_page = none } in
      let s2 = record s1 {
        next_free_ppn = s.next_free_ppn ++ f.ppn ∷ [];
        clock_queue = erase p s.clock_queue;
      } in
      update_ptes (put_page s2 p v) v

  unfoldable pub return_ppn_remove_from_clock : Pager Page Files → ℕ → Pager Page Files
  unfolding return_frame
  return_ppn_remove_from_clock s p = return_frame s p (s.pages p).physical_page
