-- ===== src/Pager/Sound/Map.antt =====
-- vm_pager.cpp, vm_map and what it calls: the frames and the maps.
use os_from_scratch.Common.{
  ℕ, zero, suc, ◌+◌, ◌-◌, ◌%◌, ◌<◌, ◌≤◌, ◌≡◌, inl, inr, refl, Bool, true, false, List, [], ◌∷◌,
  ◌++◌, Option, none, some, Bytes, leb, ◌==◌, arith, Bool-cases, Option-cases,
}
use os_from_scratch.Pager.{
  VirtualPage, Machine, Pager, vm_pagesize, vm_arena_maxaddr, find_va, vas_of, put_page, map_va,
  va_to_pte,
}
use os_from_scratch.Pager.Ptes.{update_ptes}
use os_from_scratch.Pager.Fault.{ppn_of, pte_readable, vm_fault}
use os_from_scratch.Pager.Name.{
  Name, found, unreadable, out_of_fuel, faulted_in, locate, read_name,
  translate_from_other_addr_space,
}
use os_from_scratch.Pager.Space.{
  null_page, file_page, add_page, swap_to_null, make_swap_to_nullpage, share_page, new_file_page,
  map_file, advance, map_named, map_swap, vm_map,
}
use os_from_scratch.Pager.Frames.{Resident}
use os_from_scratch.Pager.Sound.{
  IsSound, StaysSound, StaysSound-trans, keep-IsSound, map_va-IsSound, touch-IsSound, new-IsSound,
  pte-IsSound,
}
use os_from_scratch.Pager.Sound.Fault.{vm_fault-IsSound}

module _ {Page Files : Type 0} {cap : ℕ} where
  add_page-IsSound :
      (s : Pager Page Files) (pid va : ℕ) (v : VirtualPage)
      → IsSound cap s
      → va < vm_arena_maxaddr
      → ppn_of v ≡ 0
      → Resident v
      → StaysSound cap s (add_page s pid va v)
  unfolding add_page update_ptes
  add_page-IsSound s pid va v h b e r =
      let s1 = record (put_page s s.next_page v) { next_page = suc s.next_page } in
      let s2 = map_va s1 pid va s.next_page in
      let h2 : IsSound cap s2 =
        map_va-IsSound s1 (new-IsSound s h v e r) pid va s.next_page b (omega arith) in
      (pte-IsSound s2 h2 _ _, omega arith)

  pub make_swap_to_nullpage-IsSound :
      (s : Pager Page Files) (va pid : ℕ)
      → IsSound cap s
      → va < vm_arena_maxaddr
      → StaysSound cap s (make_swap_to_nullpage s va pid).0
  unfolding make_swap_to_nullpage swap_to_null null_page
  make_swap_to_nullpage-IsSound s va pid h b = go s.next_free_swap
    where
      go : (free : List ℕ) → StaysSound cap s (swap_to_null s va pid free).0
      go [] = (h, omega arith)
      go (block ∷ free) =
          add_page-IsSound (record s { next_free_swap = free }) pid va (null_page block va pid)
            (record { framed = h.framed; mapped = h.mapped; named = h.named }) b refl refl

  share_page-IsSound :
      (s : Pager Page Files) (pid va p : ℕ)
      → IsSound cap s
      → va < vm_arena_maxaddr
      → p < s.next_page
      → StaysSound cap s (share_page s pid va p)
  unfolding share_page update_ptes
  share_page-IsSound s pid va p h b l =
      let v = s.pages p in
      let v' = record v { affiliated = v.affiliated ++ va_to_pte va pid ∷ [] } in
      let s1 = map_va s pid va p in
      let s2 = put_page s1 p v' in
      let h2 : IsSound cap s2 = keep-IsSound s1 (map_va-IsSound s h pid va p b l) p v' refl refl in
      (pte-IsSound s2 h2 _ _, omega arith)

  new_file_page-IsSound :
      (s : Pager Page Files) (pid va : ℕ) (name : Bytes) (block : ℕ)
      → IsSound cap s
      → va < vm_arena_maxaddr
      → StaysSound cap s (new_file_page s pid va name block)
  unfolding new_file_page file_page add_page update_ptes
  new_file_page-IsSound s pid va name block h b =
      let t = add_page s pid va (file_page name block va pid) in
      let (k, l) = add_page-IsSound s pid va (file_page name block va pid) h b refl refl in
      (
        record {
          framed = k.framed;
          mapped = k.mapped;
          named = λ name' block' {p} y. ground (arith, k.named name' block' {p = p});
        },
        l,
      )

  map_file-IsSound :
      (s : Pager Page Files) (va : ℕ) (name : Bytes) (block : ℕ)
      → IsSound cap s
      → va < vm_arena_maxaddr
      → StaysSound cap s (map_file s va name block)
  unfolding map_file
  map_file-IsSound s va name block h b =
      elim (Option-cases (s.filename_block_to_vpage name block)) [
        | inl e ↦ rw (map_file, e) (new_file_page-IsSound s s.current_pid va name block h b)
        | inr (p, e) ↦
            rw (map_file, e) (share_page-IsSound s s.current_pid va p h b (h.named name block e))
      ]

  advance-IsSound :
      (s : Pager Page Files) (va : ℕ) → IsSound cap s → StaysSound cap s (advance s va).0
  unfolding advance
  advance-IsSound s va h =
      (record { framed = h.framed; mapped = h.mapped; named = h.named }, omega arith)

  map_named-IsSound :
      (t : Pager Page Files × Name) (va block : ℕ)
      → IsSound cap t.0
      → va < vm_arena_maxaddr
      → StaysSound cap t.0 (map_named t va block).0
  unfolding map_named
  map_named-IsSound (s, found name) va block h b =
      let t = map_file s va name block in
      let k = map_file-IsSound s va name block h b in
      StaysSound-trans s t _ k (advance-IsSound t va k.0)
  map_named-IsSound (s, unreadable) va block h b = (h, omega arith)
  map_named-IsSound (s, out_of_fuel) va block h b = (h, omega arith)

  map_swap-IsSound :
      (t : Pager Page Files × Bool) (va : ℕ)
      → IsSound cap t.0
      → StaysSound cap t.0 (map_swap t va).0
  unfolding map_swap
  map_swap-IsSound (s, true) va h = advance-IsSound s va h
  map_swap-IsSound (s, false) va h = (h, omega arith)

module _ (m : Machine) {cap : ℕ} (c : 2 ≤ cap) where
  open m use {Page, Files, byte_at}

  faulted_in-IsSound :
      (t : Pager Page Files × Bool) (p : ℕ)
      → IsSound cap t.0
      → StaysSound cap t.0 (faulted_in m t p).0
  unfolding faulted_in
  faulted_in-IsSound (s, true) p h = (h, omega arith)
  faulted_in-IsSound (s, false) p h = (h, omega arith)

  pub locate-IsSound :
      (s : Pager Page Files) (va : ℕ) → IsSound cap s → StaysSound cap s (locate m s va).0
  unfolding locate
  locate-IsSound s va h =
      elim (Option-cases
        (find_va (va - va % vm_pagesize) (vas_of (s.translate_va s.current_pid)))) [
          | inl e ↦ rw (locate, e) (touch-IsSound s h s.current_pid, omega arith)
          | inr (p, e) ↦ elim (Bool-cases (pte_readable s.process_table (s.pages p).affiliated)) [
            | inl r ↦ rw (locate, e, r) (faulted_in-IsSound (s, true) p h)
            | inr r ↦
                let t = vm_fault m s va false in
                let k = vm_fault-IsSound m s va false h c in
                rw (locate, e, r) (StaysSound-trans s t.0 _ k (faulted_in-IsSound t p k.0))
          ]
        ]

  read_name-IsSound :
      (fuel : ℕ) (s : Pager Page Files) (limit va ppn : ℕ) (running : Bytes)
      → IsSound cap s
      → StaysSound cap s (read_name m fuel s limit va ppn running).0
  unfolding read_name
  read_name-IsSound zero s limit va ppn running h = (h, omega arith)
  read_name-IsSound (suc fuel) s limit va ppn running h =
      elim (Bool-cases (byte_at (s.memory ppn) (va % vm_pagesize) == 0)) [
        | inl e ↦ rw (read_name, e) (h, omega arith)
        | inr e ↦ elim (Bool-cases (leb limit (va + 1))) [
          | inr l ↦ rw (read_name, e, l) (read_name-IsSound fuel s limit (va + 1) ppn _ h)
          | inl l ↦
              let k = locate-IsSound s (va + 1) h in
              elim (Option-cases (locate m s (va + 1)).1) [
                | inl y ↦ rw (read_name, e, l, y) k
                | inr (ppn', y) ↦
                    rw (read_name, e, l, y)
                      (StaysSound-trans s (locate m s (va + 1)).0 _ k
                        (read_name-IsSound fuel (locate m s (va + 1)).0 limit (va + 1) ppn' _ k.0))
              ]
        ]
      ]

  translate_from_other_addr_space-IsSound :
      (s : Pager Page Files) (va : ℕ)
      → IsSound cap s
      → StaysSound cap s (translate_from_other_addr_space m s va).0
  unfolding translate_from_other_addr_space
  translate_from_other_addr_space-IsSound s va h =
      let k = locate-IsSound s va h in
      elim (Option-cases (locate m s va).1) [
        | inl e ↦ rw (translate_from_other_addr_space, e) k
        | inr (ppn, e) ↦
            rw (translate_from_other_addr_space, e)
              (StaysSound-trans s (locate m s va).0 _ k (
                read_name-IsSound vm_arena_maxaddr (locate m s va).0
                  (va - va % vm_pagesize + vm_pagesize) va ppn [] k.0))
      ]

  pub vm_map-IsSound :
      (s : Pager Page Files) (their_filename : Option ℕ) (block : ℕ)
      → IsSound cap s
      → StaysSound cap s (vm_map m s their_filename block).0
  unfolding vm_map
  vm_map-IsSound s none block h =
      let va = s.next_free_va s.current_pid in
      let t = make_swap_to_nullpage s va s.current_pid in
      elim (Bool-cases (leb vm_arena_maxaddr va)) [
        | inl e ↦ rw (vm_map, e) (h, omega arith)
        | inr e ↦
            let k = make_swap_to_nullpage-IsSound s va s.current_pid h (ground arith) in
            rw (vm_map, e) (StaysSound-trans s t.0 _ k (map_swap-IsSound t va k.0))
      ]
  vm_map-IsSound s (some addr) block h =
      let va = s.next_free_va s.current_pid in
      let t = translate_from_other_addr_space m s addr in
      let k = translate_from_other_addr_space-IsSound s addr h in
      elim (Bool-cases (leb vm_arena_maxaddr va)) [
        | inl e ↦ rw (vm_map, e) (h, omega arith)
        | inr e ↦
            rw (vm_map, e)
              (StaysSound-trans s t.0 _ k (map_named-IsSound t va block k.0 (ground arith)))
      ]
