-- ===== src/Pager/Space.antt =====
-- vm_pager.cpp, vm_map: the lowest invalid page of the current process's arena becomes valid.
use os_from_scratch.Common.{
  ℕ, suc, ◌+◌, Bool, true, false, List, [], ◌∷◌, ◌++◌, Option, none, some, Bytes, leb,
  if◌then◌else◌, update, bytes_eq, ◌&&◌, ◌==◌,
}
use os_from_scratch.Pager.{
  VirtualPage, Machine, Pager, vm_pagesize, vm_arena_maxaddr, va_to_pte, put_page, map_va,
}
use os_from_scratch.Pager.Ptes.{update_ptes}
use os_from_scratch.Pager.Name.{
  Name, found, unreadable, out_of_fuel, translate_from_other_addr_space,
}

-- A page of the swap file that is all zeroes still: it is resident in the null page.
unfoldable pub null_page : ℕ → ℕ → ℕ → VirtualPage
unfolding va_to_pte
null_page block va pid = record {
  affiliated = va_to_pte va pid ∷ [];
  is_swap = true;
  filename = [];
  blocks = block ∷ [];
  physical_page = some (record { ppn = 0; clocked = true; dirty = false });
  resident = true;
}

unfoldable pub file_page : Bytes → ℕ → ℕ → ℕ → VirtualPage
unfolding va_to_pte
file_page name block va pid = record {
  affiliated = va_to_pte va pid ∷ [];
  is_swap = false;
  filename = name;
  blocks = block ∷ [];
  physical_page = none;
  resident = false;
}

module _ {Page Files : Type 0} where
  -- A page with a new number, mapped at `va`.
  unfoldable pub add_page : Pager Page Files → ℕ → ℕ → VirtualPage → Pager Page Files
  add_page s pid va v =
      update_ptes
        (record (put_page (map_va s pid va s.next_page) s.next_page v) {
          next_page = suc s.next_page;
        })
        v

  unfoldable pub swap_to_null : Pager Page Files → ℕ → ℕ → List ℕ → Pager Page Files × Bool
  unfolding add_page null_page
  swap_to_null s va pid [] = (s, false)
  swap_to_null s va pid (block ∷ free) =
      (add_page (record s { next_free_swap = free }) pid va (null_page block va pid), true)

  -- `false` is the null pointer.
  unfoldable pub make_swap_to_nullpage : Pager Page Files → ℕ → ℕ → Pager Page Files × Bool
  unfolding swap_to_null
  make_swap_to_nullpage s va pid = swap_to_null s va pid s.next_free_swap

  -- A file's block that is mapped already is shared, by one more entry.
  unfoldable pub share_page : Pager Page Files → ℕ → ℕ → ℕ → Pager Page Files
  unfolding va_to_pte
  share_page s pid va p =
      let v = s.pages p in
      let v' = record v { affiliated = v.affiliated ++ va_to_pte va pid ∷ [] } in
      update_ptes (put_page (map_va s pid va p) p v') v'

  unfoldable pub new_file_page : Pager Page Files → ℕ → ℕ → Bytes → ℕ → Pager Page Files
  unfolding add_page file_page bytes_eq
  new_file_page s pid va name block =
      add_page
        (record s {
          filename_block_to_vpage = λ name' block'.
              if bytes_eq name' name && block' == block
              then some s.next_page
              else s.filename_block_to_vpage name' block';
        })
        pid va (file_page name block va pid)

  unfoldable pub map_file : Pager Page Files → ℕ → Bytes → ℕ → Pager Page Files
  unfolding share_page new_file_page
  map_file s va name block = elim (s.filename_block_to_vpage name block) [
    | none ↦ new_file_page s s.current_pid va name block
    | some p ↦ share_page s s.current_pid va p
  ]

  -- The end of vm_map: the next address, and the address that was mapped.
  unfoldable pub advance : Pager Page Files → ℕ → Pager Page Files × Option ℕ
  advance s va = (
    record s {
      next_free_va =
          update s.next_free_va s.current_pid (s.next_free_va s.current_pid + vm_pagesize);
    },
    some va,
  )

  unfoldable pub map_named : Pager Page Files × Name → ℕ → ℕ → Pager Page Files × Option ℕ
  unfolding map_file advance
  map_named (s, found name) va block = advance (map_file s va name block) va
  map_named (s, unreadable) va block = (s, none)
  map_named (s, out_of_fuel) va block = (s, none)

  unfoldable pub map_swap : Pager Page Files × Bool → ℕ → Pager Page Files × Option ℕ
  unfolding advance
  map_swap (s, true) va = advance s va
  map_swap (s, false) va = (s, none)

module _ (m : Machine) where
  open m use {Page, Files}

  -- `their_filename` is an address or the null pointer; so is the result.
  unfoldable pub vm_map : Pager Page Files → Option ℕ → ℕ → Pager Page Files × Option ℕ
  unfolding map_named map_swap make_swap_to_nullpage
  vm_map s their_filename block =
      let va = s.next_free_va s.current_pid in
      if leb vm_arena_maxaddr va then (s, none) else elim their_filename [
        | none ↦ map_swap (make_swap_to_nullpage s va s.current_pid) va
        | some addr ↦ map_named (translate_from_other_addr_space m s addr) va block
      ]
