-- ===== src/Pager/Sound/Name.antt =====
-- vm_pager.cpp, translate_from_other_addr_space: the loop over a file's name.
use os_from_scratch.Common.{
  ℕ, zero, suc, ◌+◌, ◌-◌, ◌%◌, ◌<◌, ◌≤◌, ◌≡◌, ◌≢◌, inl, inr, [], some, Bytes, leb, ◌==◌, arith,
  Bool-cases, Option-cases,
}
use os_from_scratch.Pager.{Machine, Pager, vm_pagesize, vm_arena_maxaddr, find_va, vas_of}
use os_from_scratch.Pager.Name.{out_of_fuel, locate, read_name, translate_from_other_addr_space}
use os_from_scratch.Pager.Sound.{IsSound, find_va-Maps}
use os_from_scratch.Pager.Sound.Map.{locate-IsSound}

-- A page that begins below the arena's end ends there at the latest.
page_below : (va : ℕ) → va - va % vm_pagesize < vm_arena_maxaddr → va < vm_arena_maxaddr
page_below va h = omega arith

page_end :
    (va : ℕ)
    → va - va % vm_pagesize < vm_arena_maxaddr
    → va - va % vm_pagesize + vm_pagesize ≤ vm_arena_maxaddr
page_end va h = omega arith

module _ (m : Machine) {cap : ℕ} (c : 2 ≤ cap) where
  open m use {Page, Files, byte_at}

  locate_page :
      (s : Pager Page Files) (va : ℕ) {ppn : ℕ}
      → IsSound cap s
      → (locate m s va).1 ≡ some ppn
      → va - va % vm_pagesize < vm_arena_maxaddr
  unfolding locate
  locate_page s va h e =
      elim (Option-cases
        (find_va (va - va % vm_pagesize) (vas_of (s.translate_va s.current_pid)))) [
          | inl y ↦ absurd (ground arith)
          | inr (p, y) ↦ (find_va-Maps s.next_page _ _ (h.mapped s.current_pid) y).0
        ]

  read_name_ends :
      (fuel : ℕ) (s : Pager Page Files) (limit va ppn : ℕ) (running : Bytes)
      → IsSound cap s
      → va < vm_arena_maxaddr
      → limit ≤ vm_arena_maxaddr
      → vm_arena_maxaddr ≤ fuel + va
      → (read_name m fuel s limit va ppn running).1 ≢ out_of_fuel
  unfolding read_name
  read_name_ends zero s limit va ppn running h l b f = absurd (omega arith)
  read_name_ends (suc fuel) s limit va ppn running h l b f =
      elim (Bool-cases (byte_at (s.memory ppn) (va % vm_pagesize) == 0)) [
        | inl e ↦ rw (read_name, e) (λ y. ground arith)
        | inr e ↦ elim (Bool-cases (leb limit (va + 1))) [
          | inr k ↦
              rw (read_name, e, k)
                (read_name_ends fuel s limit (va + 1) ppn _ h (ground arith) b (omega arith))
          | inl k ↦ elim (Option-cases (locate m s (va + 1)).1) [
            | inl y ↦ rw (read_name, e, k, y) (λ z. ground arith)
            | inr (ppn', y) ↦
                rw (read_name, e, k, y)
                  (read_name_ends fuel (locate m s (va + 1)).0 limit (va + 1) ppn' _
                    (locate-IsSound m c s (va + 1) h).0
                    (page_below (va + 1) (locate_page s (va + 1) h y)) b (omega arith))
          ]
        ]
      ]

  -- Reading a file's name out of the arena ends, at the name's null byte or at an address that
  -- is not mapped or cannot be read. The frames and maps are sound, as they are after any calls,
  -- and there are two pages of memory at least.
  pub translate_from_other_addr_space_ends :
      (s : Pager Page Files) (va : ℕ)
      → IsSound cap s
      → (translate_from_other_addr_space m s va).1 ≢ out_of_fuel
  unfolding translate_from_other_addr_space
  translate_from_other_addr_space_ends s va h = elim (Option-cases (locate m s va).1) [
    | inl e ↦ rw (translate_from_other_addr_space, e) (λ z. ground arith)
    | inr (ppn, e) ↦
        let below = locate_page s va h e in
        rw (translate_from_other_addr_space, e)
          (read_name_ends vm_arena_maxaddr (locate m s va).0 _ va ppn []
            (locate-IsSound m c s va h).0 (page_below va below) (page_end va below) (omega arith))
  ]
