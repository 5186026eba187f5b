-- ===== src/Pager/Name.antt =====
-- vm_pager.cpp, translate_from_other_addr_space: a file name is read out of the process's arena.
use os_from_scratch.Common.{
  ℕ, zero, suc, ◌+◌, ◌-◌, ◌%◌, Bool, true, false, [], ◌∷◌, ◌++◌, Option, none, some, Bytes, ◌==◌,
  leb,
}
use os_from_scratch.Pager.{Machine, Pager, vm_pagesize, vm_arena_maxaddr, find_va, vas_of, touch}
use os_from_scratch.Pager.Fault.{ppn_of, pte_readable, vm_fault}

-- An address that is not mapped or cannot be read ends the search.
pub data Name : Type 0 where
  found : Bytes → Name
  unreadable out_of_fuel : Name

module _ (m : Machine) where
  open m use {Page, Files, byte_at}

  unfoldable pub faulted_in : Pager Page Files × Bool → ℕ → Pager Page Files × Option ℕ
  faulted_in (s, true) p = (s, some (ppn_of (s.pages p)))
  faulted_in (s, false) p = (s, none)

  -- The physical page that holds the address, after a fault if it cannot be read.
  unfoldable pub locate : Pager Page Files → ℕ → Pager Page Files × Option ℕ
  unfolding faulted_in find_va pte_readable
  locate s va = elim (find_va (va - va % vm_pagesize) (vas_of (s.translate_va s.current_pid))) [
    | none ↦ (touch s s.current_pid, none)
    | some p ↦
        faulted_in
          (elim (pte_readable s.process_table (s.pages p).affiliated) [
            | true ↦ (s, true)
            | false ↦ vm_fault m s va false
          ])
          p
  ]

  -- The loop: `va` is the address of the byte that is read next, in the physical page `ppn`, and
  -- `limit` the end of the first page. Beyond it each address is looked up again.
  unfoldable pub read_name : ℕ → Pager Page Files → ℕ → ℕ → ℕ → Bytes → Pager Page Files × Name
  unfolding locate
  read_name zero s limit va ppn running = (s, out_of_fuel)
  read_name (suc fuel) s limit va ppn running =
      let c = byte_at (s.memory ppn) (va % vm_pagesize) in
      elim (c == 0) [
        | true ↦ (s, found running)
        | false ↦ elim (leb limit (va + 1)) [
          | false ↦ read_name fuel s limit (va + 1) ppn (running ++ c ∷ [])
          | true ↦
              let (s', there) = locate s (va + 1) in
              elim there [
                | none ↦ (s', unreadable)
                | some ppn' ↦ read_name fuel s' limit (va + 1) ppn' (running ++ c ∷ [])
              ]
        ]
      ]

  -- The fuel is the number of addresses below the arena's end.
  unfoldable pub translate_from_other_addr_space : Pager Page Files → ℕ → Pager Page Files × Name
  unfolding read_name
  translate_from_other_addr_space s va =
      let (s', there) = locate s va in
      elim there [
        | none ↦ (s', unreadable)
        | some ppn ↦ read_name vm_arena_maxaddr s' (va - va % vm_pagesize + vm_pagesize) va ppn []
      ]
