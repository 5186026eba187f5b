-- ===== src/Pager/Grants/Fault.antt =====
-- vm_pager.cpp, vm_fault: the entry of the process that faulted, copy-on-write included.
use os_from_scratch.Common.{
  ℕ, ◌-◌, ◌%◌, ◌<◌, ◌≤◌, ◌≡◌, inl, inr, refl, sym, subst, ap, ◌∙◌, Bool, true, false, ◌&&◌, ltb,
  some, arith, length, Bool-cases, Option-cases, ==_refl, ==_ne,
}
use os_from_scratch.Pager.{
  VirtualPage, Machine, Pager, va_to_pte, find_va, vas_of, vm_pagesize, vm_arena_maxaddr, put_page,
}
use os_from_scratch.Pager.Ptes.{update_ptes}
use os_from_scratch.Pager.Clock.{give_new_ppn}
use os_from_scratch.Pager.Fault.{
  has_ptr, pte_readable, access_page, detach, copy_data, copy_page, if_readable, fault_on, vm_fault,
  mark_written, private_page,
}
use os_from_scratch.Pager.Frames.Replace.{Given, given}
use os_from_scratch.Pager.Sound.{IsSound, find_va-Maps}
use os_from_scratch.Pager.Sound.Access.{access_page-IsSound}
use os_from_scratch.Pager.Content.Maps.{access_page-SameMaps}
use os_from_scratch.Pager.Content.Detach.{detach-Given, copy_page-translate_va}
use os_from_scratch.Pager.Content.Copy.{copy_data_pages}
use os_from_scratch.Pager.Content.Fault.{find_va-insert_va, if_readable_yes}
use os_from_scratch.Pager.Grants.Access.{IsGranted, update_ptes-IsGranted, access_page-IsGranted}

module _ (m : Machine) where
  open m use {Page, Files}

  module _ {cap : ℕ} (c : 2 ≤ cap) (s : Pager Page Files) (h : IsSound cap s) (p va : ℕ)
      (l : p < s.next_page) (in_arena : va < vm_arena_maxaddr) where
    frame_for :
        Given m cap (detach m s p va) s.next_page (give_new_ppn m (detach m s p va) s.next_page)
    frame_for = detach-Given m c s h p va l in_arena

    copied : Pager Page Files
    copied = copy_data m (give_new_ppn m (detach m s p va) s.next_page) p s.next_page

    detached_page :
        (detach m s p va).pages s.next_page
        ≡ private_page (va_to_pte va s.current_pid) (s.pages p).blocks
    unfolding detach
    detached_page = rw (==_refl s.next_page, ==_ne s.next_page p (λ e. omega arith)) refl

    new_page :
        copied.pages s.next_page
        ≡ given (private_page (va_to_pte va s.current_pid) (s.pages p).blocks) frame_for.ppn
    unfolding copied
    new_page =
        ap (λ f. f s.next_page)
          (copy_data_pages m (give_new_ppn m (detach m s p va) s.next_page) p s.next_page)
        ∙ frame_for.mine
        ∙ ap (λ v. given v frame_for.ppn) detached_page

    -- The end of the copy, for the new page `x`.
    abbrev finished : VirtualPage → Pager Page Files
    finished x =
        let s' = put_page copied s.next_page (mark_written x) in
        update_ptes (update_ptes s' (s'.pages p)) (mark_written x)

    copy_page-IsGranted :
        (copy_page m s p va).aborted ≡ false
        → IsGranted (copy_page m s p va) (va_to_pte va s.current_pid) s.next_page true
    unfolding copy_page copied update_ptes mark_written private_page has_ptr
    copy_page-IsGranted a =
        let ptr = va_to_pte va s.current_pid in
        let v = given (private_page ptr (s.pages p).blocks) frame_for.ppn in
        let others = update_ptes copied ((put_page copied s.next_page (mark_written v)).pages p) in
        subst (λ x. (finished x).aborted ≡ false → IsGranted (finished x) ptr s.next_page true)
          (sym new_page)
          (λ b.
            update_ptes-IsGranted others s.next_page (mark_written v)
              (record { ppn = frame_for.ppn; clocked = true; dirty = true }) ptr true refl refl refl
              (λ w. (refl, omega arith)) (ground arith) b)
          a

  -- The address is mapped to a page that the process can access.
  abbrev pub IsAllowed : Pager Page Files → ℕ → ℕ → Bool → Type 0
  IsAllowed t pid va write_flag =
      (q : ℕ) × (find_va va (vas_of (t.translate_va pid)) ≡ some q)
      × IsGranted t (va_to_pte va pid) q write_flag

  copy_page-IsAllowed :
      {cap : ℕ} (c : 2 ≤ cap) (s : Pager Page Files)
      → IsSound cap s
      → (p va : ℕ) → find_va va (vas_of (s.translate_va s.current_pid)) ≡ some p
      → (copy_page m s p va).aborted ≡ false
      → IsAllowed (copy_page m s p va) s.current_pid va true
  copy_page-IsAllowed c s h p va e a =
      let (in_arena, l) = find_va-Maps s.next_page va _ (h.mapped s.current_pid) e in
      let found : find_va va (vas_of ((copy_page m s p va).translate_va s.current_pid))
          ≡ some s.next_page =
        ap (λ f. find_va va (vas_of (f s.current_pid)))
          (copy_page-translate_va m c s h p va l in_arena)
        ∙ rw (==_refl s.current_pid)
            (find_va-insert_va va s.next_page va _ ∙ rw (==_refl va) refl) in
      (s.next_page, found, copy_page-IsGranted c s h p va l in_arena a)

  if_readable_fails :
      (t : Pager Page Files × Bool) (p va : ℕ) → t.1 ≡ false → (if_readable m t p va).1 ≡ false
  unfolding if_readable
  if_readable_fails (s, true) p va e = absurd (ground arith)
  if_readable_fails (s, false) p va e = refl

  module _ {cap : ℕ} (c : 2 ≤ cap) (s : Pager Page Files) (h : IsSound cap s) where
    access_page-IsAllowed :
        (p va : ℕ)
        → find_va va (vas_of (s.translate_va s.current_pid)) ≡ some p
        → has_ptr (va_to_pte va s.current_pid) (s.pages p).affiliated ≡ true
        → (write_flag : Bool) → (write_flag && ltb 1 (length (s.pages p).blocks)) ≡ false
        → (access_page m s p write_flag).1 ≡ true
        → (access_page m s p write_flag).0.aborted ≡ false
        → IsAllowed (access_page m s p write_flag).0 s.current_pid va write_flag
    access_page-IsAllowed p va e o write_flag b r a =
        let l = (find_va-Maps s.next_page va _ (h.mapped s.current_pid) e).1 in
        (
          p,
          ap (λ f. find_va va (vas_of (f s.current_pid)))
                (access_page-SameMaps m c s h p l write_flag).0
              ∙ e,
          access_page-IsGranted m c s h p l write_flag (va_to_pte va s.current_pid) o
              (λ w. ground (arith, b, w)) r a,
        )

    read_and_copy-IsAllowed :
        (p va : ℕ)
        → find_va va (vas_of (s.translate_va s.current_pid)) ≡ some p
        → (if_readable m (access_page m s p false) p va).1 ≡ true
        → (if_readable m (access_page m s p false) p va).0.aborted ≡ false
        → IsAllowed (if_readable m (access_page m s p false) p va).0 s.current_pid va true
    read_and_copy-IsAllowed p va e r a =
        let l = (find_va-Maps s.next_page va _ (h.mapped s.current_pid) e).1 in
        elim (Bool-cases (access_page m s p false).1) [
          | inl y ↦
              let t = (access_page m s p false).0 in
              let (same_va, same_pid, same_next) = access_page-SameMaps m c s h p l false in
              let found : find_va va (vas_of (t.translate_va t.current_pid)) ≡ some p =
                ap (λ f. find_va va (vas_of (f t.current_pid))) same_va
                ∙ ap (λ i. find_va va (vas_of (s.translate_va i))) same_pid
                ∙ e in
              let same = if_readable_yes m (access_page m s p false) p va y in
              subst (λ u. IsAllowed u s.current_pid va true) (sym same)
                (subst (λ i. IsAllowed (copy_page m t p va) i va true) same_pid
                  (copy_page-IsAllowed c t (access_page-IsSound m s p false h c l).0 p va found
                    (ap (λ u. u.aborted) (sym same) ∙ a)))
          | inr y ↦ absurd (ground (arith, if_readable_fails (access_page m s p false) p va y))
        ]

    fault_on-IsAllowed :
        (p va : ℕ)
        → find_va va (vas_of (s.translate_va s.current_pid)) ≡ some p
        → has_ptr (va_to_pte va s.current_pid) (s.pages p).affiliated ≡ true
        → (write_flag : Bool) → (fault_on m s p va write_flag).1 ≡ true
        → (fault_on m s p va write_flag).0.aborted ≡ false
        → IsAllowed (fault_on m s p va write_flag).0 s.current_pid va write_flag
    unfolding fault_on if_readable
    fault_on-IsAllowed p va e o write_flag r a =
        elim (Bool-cases (write_flag && ltb 1 (length (s.pages p).blocks))) [
          | inl y ↦
              let writes : true ≡ write_flag = ground (arith, y) in
              subst (λ w. IsAllowed (fault_on m s p va write_flag).0 s.current_pid va w) writes
                (elim (Bool-cases (pte_readable s.process_table (s.pages p).affiliated)) [
                  | inl z ↦
                      rw (fault_on, y, z)
                        (copy_page-IsAllowed c s h p va e (rw (fault_on, y, z) at a))
                  | inr z ↦
                      rw (fault_on, y, z)
                        (read_and_copy-IsAllowed p va e (rw (fault_on, y, z) at r)
                          (rw (fault_on, y, z) at a))
                ])
          | inr y ↦
              rw (fault_on, y)
                (access_page-IsAllowed p va e o write_flag y (rw (fault_on, y) at r)
                  (rw (fault_on, y) at a))
        ]

    -- After a fault that succeeds, the process can make the access that faulted: the address is
    -- mapped to a page in memory, and the process's entry, if it has a table, leads to the
    -- page's frame, can be read, and can be written if the access was a write. The conditions:
    -- the frames and maps are sound, as they are after any calls, with two pages of memory at
    -- least, a page that the address is mapped to has the process's entry among its own, and no
    -- assert has failed.
    pub vm_fault-IsAllowed :
        (addr : ℕ) (write_flag : Bool)
        → ((p : ℕ)
            → find_va (addr - addr % vm_pagesize) (vas_of (s.translate_va s.current_pid)) ≡ some p
            → has_ptr (va_to_pte (addr - addr % vm_pagesize) s.current_pid) (s.pages p).affiliated
              ≡ true)
        → (vm_fault m s addr write_flag).1 ≡ true
        → (vm_fault m s addr write_flag).0.aborted ≡ false
        → IsAllowed
            (vm_fault m s addr write_flag).0
            s.current_pid
            (addr - addr % vm_pagesize)
            write_flag
    unfolding vm_fault
    vm_fault-IsAllowed addr write_flag o r a =
        let va = addr - addr % vm_pagesize in
        elim (Option-cases (find_va va (vas_of (s.translate_va s.current_pid)))) [
          | inl y ↦ absurd (ground (arith, r, y))
          | inr (p, y) ↦
              rw (vm_fault, y)
                (fault_on-IsAllowed p va y (o p y) write_flag (rw (vm_fault, y) at r)
                  (rw (vm_fault, y) at a))
        ]
