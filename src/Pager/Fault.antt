-- ===== src/Pager/Fault.antt =====
-- vm_pager.cpp, vm_fault: a page is brought into memory, or a shared one is copied for a write.
use os_from_scratch.Common.{
  ℕ, suc, ◌-◌, ◌%◌, Bool, true, false, not, ◌&&◌, ◌||◌, List, [], ◌∷◌, Option, none, some, ◌==◌,
  ltb, if◌then◌else◌, length, update,
}
use os_from_scratch.Pager.{
  Pte, PtePtr, VirtualPage, Machine, Pager, vm_pagesize, va_to_pte, same_pte, front, find_va,
  vas_of, put_page, check, map_va, touch, remove_from_filename_block,
}
use os_from_scratch.Pager.Ptes.{update_ptes}
use os_from_scratch.Pager.Clock.{backing, give_new_ppn, return_ppn_remove_from_clock}

unfoldable pub last_block : List ℕ → ℕ
last_block [] = 0
last_block (x ∷ []) = x
last_block (x ∷ y ∷ xs) = last_block (y ∷ xs)

unfoldable pub drop_last : List ℕ → List ℕ
drop_last [] = []
drop_last (x ∷ []) = []
drop_last (x ∷ y ∷ xs) = x ∷ drop_last (y ∷ xs)

unfoldable pub erase_ptr : PtePtr → List PtePtr → List PtePtr
erase_ptr ptr [] = []
erase_ptr ptr (x ∷ xs) = if same_pte x ptr then xs else x ∷ erase_ptr ptr xs

unfoldable pub has_ptr : PtePtr → List PtePtr → Bool
has_ptr ptr [] = false
has_ptr ptr (x ∷ xs) = same_pte x ptr || has_ptr ptr xs

abbrev pub ppn_of : VirtualPage → ℕ
ppn_of v = elim v.physical_page [ none ↦ 0 | some f ↦ f.ppn ]

-- `!resident || physicalPage->PPN == 0`.
abbrev pub needs_frame : VirtualPage → Bool
needs_frame v = not v.resident || ppn_of v == 0

unfoldable pub pte_readable : (ℕ → Option (ℕ → Pte)) → List PtePtr → Bool
pte_readable tables [] = false
pte_readable tables (ptr ∷ _) = elim (tables ptr.process) [
  | none ↦ false
  | some t ↦ (t ptr.index).read_enable
]

-- The page that a write to a shared page makes for the current process.
unfoldable pub private_page : PtePtr → List ℕ → VirtualPage
unfolding last_block
private_page ptr blocks = record {
  affiliated = ptr ∷ [];
  is_swap = true;
  filename = [];
  blocks = last_block blocks ∷ [];
  physical_page = none;
  resident = false;
}

unfoldable pub without_ptr : VirtualPage → PtePtr → VirtualPage
unfolding drop_last erase_ptr
without_ptr v ptr = record v {
  affiliated = erase_ptr ptr v.affiliated;
  blocks = drop_last v.blocks;
}

-- The bits of a frame that has just been copied to.
unfoldable pub mark_written : VirtualPage → VirtualPage
mark_written v = elim v.physical_page [
  | none ↦ v
  | some f ↦ record v { physical_page = some (record f { clocked = true; dirty = true }) }
]

module _ (m : Machine) where
  open m use {Page, Files, zero_page, file_read}

  -- file_read into the page's new frame; a page that cannot be read gives the frame back.
  unfoldable pub fill_frame :
      Pager Page Files → ℕ → VirtualPage → Option Page → Pager Page Files × Bool
  fill_frame s p v none =
      let s1 = if length v.affiliated == 1 then remove_from_filename_block s v else s in
      (return_ppn_remove_from_clock m s1 p, false)
  fill_frame s p v (some x) = (record s { memory = update s.memory (ppn_of (s.pages p)) x }, true)

  -- A frame for a page that is not resident, or that is the null page. give_new_ppn begins with the
  -- assignment of a fresh physical page, which vm_fault makes too.
  unfoldable pub load_page : Pager Page Files → ℕ → Pager Page Files × Bool
  unfolding fill_frame
  load_page s p =
      let v = s.pages p in
      let s1 = give_new_ppn m s p in
      fill_frame s1 p (s1.pages p)
        (if v.resident then some zero_page else file_read s1.files (backing v) (front v.blocks))

  -- The bits of the page that was accessed.
  unfoldable pub mark_accessed : Pager Page Files → ℕ → Bool → Pager Page Files
  mark_accessed s p write_flag = elim (s.pages p).physical_page [
    | none ↦ check s false
    | some f ↦
        let v = record (s.pages p) {
          physical_page = some (record f { clocked = true; dirty = f.dirty || write_flag });
        } in
        let ok =
          not (f.dirty && write_flag) || ltb 1 (length (s.pages p).blocks) || not f.clocked in
        update_ptes (put_page (check s ok) p v) v
  ]

  unfoldable pub if_loaded : Pager Page Files × Bool → ℕ → Bool → Pager Page Files × Bool
  unfolding mark_accessed
  if_loaded (s, true) p write_flag = (mark_accessed s p write_flag, true)
  if_loaded (s, false) p write_flag = (s, false)

  -- vm_fault below the copy-on-write.
  unfoldable pub access_page : Pager Page Files → ℕ → Bool → Pager Page Files × Bool
  unfolding if_loaded load_page
  access_page s p write_flag =
      if_loaded (if needs_frame (s.pages p) then load_page s p else (s, true)) p write_flag

  -- memcpy, unless the page has just been evicted: then its data is in the frame already.
  unfoldable pub copy_data : Pager Page Files → ℕ → ℕ → Pager Page Files
  copy_data s p n =
      if (s.pages p).resident
      then record s {
        memory = update s.memory (ppn_of (s.pages n)) (s.memory (ppn_of (s.pages p)));
      }
      else s

  -- The page `n` becomes the process's own in the place of `p`.
  unfoldable pub detach : Pager Page Files → ℕ → ℕ → Pager Page Files
  unfolding private_page without_ptr has_ptr va_to_pte
  detach s p va =
      let v = s.pages p in
      let ptr = va_to_pte va s.current_pid in
      let s1 = map_va (check s (has_ptr ptr v.affiliated)) s.current_pid va s.next_page in
      let s2 = put_page s1 s.next_page (private_page ptr v.blocks) in
      record (put_page s2 p (without_ptr v ptr)) { next_page = suc s.next_page }

  unfoldable pub copy_page : Pager Page Files → ℕ → ℕ → Pager Page Files
  unfolding detach copy_data mark_written
  copy_page s p va =
      let n = s.next_page in
      let s2 = copy_data (give_new_ppn m (detach s p va) n) p n in
      let w = mark_written (s2.pages n) in
      let s3 = put_page s2 n w in update_ptes (update_ptes s3 (s3.pages p)) w

  unfoldable pub if_readable : Pager Page Files × Bool → ℕ → ℕ → Pager Page Files × Bool
  unfolding copy_page
  if_readable (s, true) p va = (copy_page s p va, true)
  if_readable (s, false) p va = (s, false)

  unfoldable pub fault_on : Pager Page Files → ℕ → ℕ → Bool → Pager Page Files × Bool
  unfolding if_readable access_page pte_readable
  fault_on s p va write_flag =
      let v = s.pages p in
      if write_flag && ltb 1 (length v.blocks)
      then if_readable
          (if pte_readable s.process_table v.affiliated then (s, true) else access_page s p false) p
          va
      else access_page s p write_flag

  unfoldable pub vm_fault : Pager Page Files → ℕ → Bool → Pager Page Files × Bool
  unfolding fault_on find_va
  vm_fault s addr write_flag =
      let va = addr - addr % vm_pagesize in
      elim (find_va va (vas_of (s.translate_va s.current_pid))) [
        | none ↦ (touch s s.current_pid, false)
        | some p ↦ fault_on s p va write_flag
      ]
