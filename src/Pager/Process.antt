-- ===== src/Pager/Process.antt =====
-- vm_pager.cpp: vm_init, and the calls by which processes come and go.
use os_from_scratch.Common.{
  ℕ, zero, suc, ◌-◌, Bool, true, false, not, ◌&&◌, List, [], ◌∷◌, ◌++◌, Option, none, some, ◌==◌,
  ltb, if◌then◌else◌, length, update,
}
use os_from_scratch.Pager.{
  Pte, VirtualPage, Machine, Pager, vm_arena_baseaddr, va_to_pte, put_page, check, map_va, is_empty,
  vas_of,
}
use os_from_scratch.Pager.Ptes.{update_ptes, update_ptes_if_any}
use os_from_scratch.Pager.Clock.{return_ppn_remove_from_clock}
use os_from_scratch.Pager.Fault.{last_block, drop_last, erase_ptr, has_ptr, ppn_of}
use os_from_scratch.Pager.Space.{make_swap_to_nullpage}

-- The numbers `i`, `i + 1`, … of the loops of vm_init.
unfoldable pub count_up : ℕ → ℕ → List ℕ
count_up zero i = []
count_up (suc n) i = i ∷ count_up n (suc i)

abbrev pub no_entry : Pte
no_entry = record { ppage = 0; read_enable = false; write_enable = false }

module _ (m : Machine) where
  open m use {Page, Files, zero_page}

  -- The lists are empty before; the null page is the first of `memory`.
  unfoldable pub vm_init : Pager Page Files → ℕ → ℕ → Pager Page Files
  unfolding count_up
  vm_init s memory_pages swap_blocks = record s {
    memory = update s.memory 0 zero_page;
    next_free_ppn = s.next_free_ppn ++ count_up (memory_pages - 1) 1;
    next_free_swap = s.next_free_swap ++ count_up swap_blocks 0;
  }

unfoldable pub swap_needed : (ℕ → VirtualPage) → List (ℕ × ℕ) → ℕ
swap_needed pages [] = 0
swap_needed pages ((va, p) ∷ l) =
    if (pages p).is_swap then suc (swap_needed pages l) else swap_needed pages l

module _ {Page Files : Type 0} where
  unfoldable pub take_swap : Pager Page Files → ℕ → VirtualPage → List ℕ → Pager Page Files
  take_swap s p v [] = check s false
  take_swap s p v (block ∷ free) =
      put_page (record s { next_free_swap = free }) p (record v { blocks = v.blocks ++ block ∷ [] })

  -- One page of the parent, for the child: the null page is made anew, any other is shared.
  unfoldable pub inherit_page : Pager Page Files → ℕ → ℕ → ℕ → Pager Page Files
  unfolding take_swap va_to_pte
  inherit_page s child va p =
      let v = s.pages p in
      if v.resident && ppn_of v == 0
      then (make_swap_to_nullpage s va child).0
      else let s1 = map_va s child va p in
        let s2 = if v.is_swap then take_swap s1 p v s1.next_free_swap else s1 in
        let w = record (s2.pages p) {
          affiliated = (s2.pages p).affiliated ++ va_to_pte va child ∷ [];
        } in
        update_ptes (put_page s2 p w) w

  unfoldable pub inherit_all : Pager Page Files → ℕ → List (ℕ × ℕ) → Pager Page Files
  unfolding inherit_page
  inherit_all s child [] = s
  inherit_all s child ((va, p) ∷ l) = inherit_all (inherit_page s child va p) child l

  -- process_table.insert, which keeps a table that is there.
  unfoldable pub insert_table : Pager Page Files → ℕ → Pager Page Files
  insert_table s child = record s {
    process_table =
        update s.process_table child
          (elim (s.process_table child) [ none ↦ some (λ _. no_entry) | some t ↦ some t ]);
    next_free_va = update s.next_free_va child vm_arena_baseaddr;
  }

  unfoldable pub inherit_from :
      Pager Page Files → ℕ → ℕ → Option (List (ℕ × ℕ)) → Pager Page Files × Bool
  unfolding inherit_all swap_needed
  inherit_from s parent child none = (s, true)
  inherit_from s parent child (some l) =
      if ltb (length s.next_free_swap) (swap_needed s.pages l)
      then (
        record s {
          process_table = update s.process_table child none;
          next_free_va = update s.next_free_va child 0;
        },
        false,
      )
      else (
        inherit_all
            (record s { next_free_va = update s.next_free_va child (s.next_free_va parent) }) child
            l,
        true,
      )

  -- The first process is current at once.
  unfoldable pub start_first : Pager Page Files × Bool → ℕ → ℕ → Pager Page Files × Bool
  start_first (s, false) parent child = (s, false)
  start_first (s, true) parent child =
      (elim (s.process_table parent) [ none ↦ record s { current_pid = child } | some t ↦ s ], true)

  unfoldable pub vm_create : Pager Page Files → ℕ → ℕ → Pager Page Files × Bool
  unfolding insert_table inherit_from start_first
  vm_create s parent child =
      let s1 = insert_table s child in
      start_first (inherit_from s1 parent child (s1.translate_va parent)) parent child

  unfoldable pub vm_switch : Pager Page Files → ℕ → Pager Page Files
  vm_switch s pid = record s { current_pid = pid }

module _ (m : Machine) where
  open m use {Page, Files}

  -- The swap block that belongs to the process goes back.
  unfoldable pub give_back_block : Pager Page Files → ℕ → VirtualPage → Pager Page Files
  unfolding last_block drop_last
  give_back_block s p v =
      if v.is_swap
      then put_page (record s { next_free_swap = s.next_free_swap ++ last_block v.blocks ∷ [] }) p
          (record v { blocks = drop_last v.blocks })
      else s

  unfoldable pub release_page : Pager Page Files → ℕ → ℕ → Pager Page Files
  unfolding give_back_block erase_ptr has_ptr va_to_pte
  release_page s va p =
      let s1 = give_back_block s p (s.pages p) in
      let v1 = s1.pages p in
      let s2 =
        if v1.resident && not (ppn_of v1 == 0) && is_empty v1.blocks
        then return_ppn_remove_from_clock m s1 p
        else s1 in
      let v2 = s2.pages p in
      let ptr = va_to_pte va s.current_pid in
      let w = record v2 { affiliated = erase_ptr ptr v2.affiliated } in
      update_ptes_if_any (put_page (check s2 (has_ptr ptr v2.affiliated)) p w) w

  unfoldable pub release_all : Pager Page Files → List (ℕ × ℕ) → Pager Page Files
  unfolding release_page
  release_all s [] = s
  release_all s ((va, p) ∷ l) = release_all (release_page s va p) l

  unfoldable pub vm_destroy : Pager Page Files → Pager Page Files
  unfolding release_all
  vm_destroy s =
      let s1 = release_all s (vas_of (s.translate_va s.current_pid)) in
      record s1 {
        translate_va = update s1.translate_va s.current_pid none;
        process_table = update s1.process_table s.current_pid none;
        next_free_va = update s1.next_free_va s.current_pid 0;
      }
