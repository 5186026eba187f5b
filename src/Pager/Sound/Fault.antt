-- ===== src/Pager/Sound/Fault.antt =====
-- vm_pager.cpp, vm_fault and what it calls: the frames and the maps.
use os_from_scratch.Common.{
  ℕ, suc, ◌-◌, ◌%◌, ◌<◌, ◌≤◌, ◌≡◌, inl, inr, refl, Bool, true, false, ◌&&◌, ltb, length, arith,
  Bool-cases, Option-cases,
}
use os_from_scratch.Pager.{
  Machine, Pager, vm_pagesize, vm_arena_maxaddr, find_va, vas_of, put_page, check, map_va,
  va_to_pte,
}
use os_from_scratch.Pager.Ptes.{update_ptes}
use os_from_scratch.Pager.Clock.{give_new_ppn}
use os_from_scratch.Pager.Fault.{
  ppn_of, pte_readable, private_page, without_ptr, has_ptr, mark_written, access_page, copy_data,
  detach, copy_page, if_readable, fault_on, vm_fault,
}
use os_from_scratch.Pager.Frames.Changes.{same-IsFramed}
use os_from_scratch.Pager.Sound.{
  IsSound, StaysSound, StaysSound-trans, find_va-Maps, keep-IsSound, map_va-IsSound, touch-IsSound,
  new-IsSound, pte-IsSound,
}
use os_from_scratch.Pager.Sound.Access.{give_new_ppn-IsSound, access_page-IsSound}

module _ (m : Machine) where
  open m use {Page, Files}

  pub detach-next : (s : Pager Page Files) (p va : ℕ) → s.next_page < (detach m s p va).next_page
  unfolding detach
  detach-next s p va = omega arith

  pub detach-ppn_of :
      (s : Pager Page Files) (p va : ℕ)
      → p < s.next_page
      → ppn_of ((detach m s p va).pages s.next_page) ≡ 0
  unfolding detach private_page
  detach-ppn_of s p va l = ground arith

module _ (m : Machine) {cap : ℕ} where
  open m use {Page, Files}

  copy_data-IsSound :
      (s : Pager Page Files) (p n : ℕ) → IsSound cap s → StaysSound cap s (copy_data m s p n)
  unfolding copy_data
  copy_data-IsSound s p n h = elim (Bool-cases (s.pages p).resident) [
    | inl e ↦
        rw (copy_data, e)
          (record { framed = h.framed; mapped = h.mapped; named = h.named }, omega arith)
    | inr e ↦ rw (copy_data, e) (h, omega arith)
  ]

  pub detach-IsSound :
      (s : Pager Page Files) (p va : ℕ)
      → IsSound cap s
      → va < vm_arena_maxaddr
      → p < s.next_page
      → StaysSound cap s (detach m s p va)
  unfolding detach private_page without_ptr
  detach-IsSound s p va h b l =
      let v = s.pages p in
      let ptr = va_to_pte va s.current_pid in
      let s1 = check s (has_ptr ptr v.affiliated) in
      let n = private_page ptr v.blocks in
      let s2 = record (put_page s1 s.next_page n) { next_page = suc s.next_page } in
      let s3 = map_va s2 s.current_pid va s.next_page in
      let h1 : IsSound cap s1 = pte-IsSound s h s.process_table s1.aborted in
      let h2 : IsSound cap s2 = new-IsSound s1 h1 n refl refl in
      let h3 : IsSound cap s3 = map_va-IsSound s2 h2 s.current_pid va s.next_page b (omega arith) in
      (keep-IsSound s3 h3 p (without_ptr v ptr) (ground arith) (ground arith), omega arith)

  mark_written-IsSound :
      (s : Pager Page Files) (p : ℕ)
      → IsSound cap s
      → IsSound cap (put_page s p (mark_written (s.pages p)))
  unfolding mark_written
  mark_written-IsSound s p h = record {
    framed =
        same-IsFramed h.framed p _ (ground arith) (ground (arith, h.framed.resident_iff p))
          (λ l. ground (arith, h.framed.frames.fresh p l));
    mapped = h.mapped;
    named = h.named;
  }

  copy_page-IsSound :
      (s : Pager Page Files) (p va : ℕ)
      → IsSound cap s
      → 2 ≤ cap
      → va < vm_arena_maxaddr
      → p < s.next_page
      → StaysSound cap s (copy_page m s p va)
  unfolding copy_page update_ptes
  copy_page-IsSound s p va h c b l =
      let n = s.next_page in
      let s1 = detach m s p va in
      let (h1, l1) = detach-IsSound s p va h b l in
      let s2 = give_new_ppn m s1 n in
      let (h2, l2) =
        give_new_ppn-IsSound m s1 n h1 c (detach-next m s p va) (detach-ppn_of m s p va l) in
      let s3 = copy_data m s2 p n in
      let (h3, l3) = copy_data-IsSound s2 p n h2 in
      let s4 = put_page s3 n (mark_written (s3.pages n)) in
      let h4 = mark_written-IsSound s3 n h3 in (pte-IsSound s4 h4 _ _, omega (arith, l1, l2, l3))

  if_readable-IsSound :
      (t : Pager Page Files × Bool) (p va : ℕ)
      → IsSound cap t.0
      → 2 ≤ cap
      → va < vm_arena_maxaddr
      → p < t.0.next_page
      → StaysSound cap t.0 (if_readable m t p va).0
  unfolding if_readable
  if_readable-IsSound (s, true) p va h c b l = copy_page-IsSound s p va h c b l
  if_readable-IsSound (s, false) p va h c b l = (h, omega arith)

  fault_on-IsSound :
      (s : Pager Page Files) (p va : ℕ) (write_flag : Bool)
      → IsSound cap s
      → 2 ≤ cap
      → va < vm_arena_maxaddr
      → p < s.next_page
      → StaysSound cap s (fault_on m s p va write_flag).0
  unfolding fault_on
  fault_on-IsSound s p va write_flag h c b l =
      elim (Bool-cases (write_flag && ltb 1 (length (s.pages p).blocks))) [
        | inl e ↦ elim (Bool-cases (pte_readable s.process_table (s.pages p).affiliated)) [
          | inl r ↦ rw (fault_on, e, r) (if_readable-IsSound (s, true) p va h c b l)
          | inr r ↦
              let t = access_page m s p false in
              let k = access_page-IsSound m s p false h c l in
              rw (fault_on, e, r)
                (StaysSound-trans s t.0 _ k
                  (if_readable-IsSound t p va k.0 c b (omega (arith, k.1, l))))
        ]
        | inr e ↦ rw (fault_on, e) (access_page-IsSound m s p write_flag h c l)
      ]

  pub vm_fault-IsSound :
      (s : Pager Page Files) (addr : ℕ) (write_flag : Bool)
      → IsSound cap s
      → 2 ≤ cap
      → StaysSound cap s (vm_fault m s addr write_flag).0
  unfolding vm_fault
  vm_fault-IsSound s addr write_flag h c =
      let va = addr - addr % vm_pagesize in
      elim (Option-cases (find_va va (vas_of (s.translate_va s.current_pid)))) [
        | inl e ↦ rw (vm_fault, e) (touch-IsSound s h s.current_pid, omega arith)
        | inr (p, e) ↦
            rw (vm_fault, e)
              (let b = find_va-Maps s.next_page va _ (h.mapped s.current_pid) e in
                fault_on-IsSound s p va write_flag h c b.0 b.1)
      ]
