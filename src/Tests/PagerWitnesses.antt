-- ===== src/Tests/PagerWitnesses.antt =====
-- The pager's properties applied at states that runs of it lead to.
use os_from_scratch.Common.{
  ℕ, zero, suc, ◌≤◌, ◌≡◌, ◌≢◌, refl, true, List, [], ◌∷◌, none, some, Bytes, arith, length, ◌-◌,
  ◌%◌,
}
use os_from_scratch.Pager.{find_va, vas_of, va_to_pte, vm_pagesize}
use os_from_scratch.Pager.Clock.{sweep, give_new_ppn}
use os_from_scratch.Pager.Fault.{vm_fault, has_ptr}
use os_from_scratch.Pager.Name.{out_of_fuel, translate_from_other_addr_space}
use os_from_scratch.Pager.Calls.{Call, create, map, fault, store}
use os_from_scratch.Pager.Frames.Sweep.{Swept, sweep-Swept}
use os_from_scratch.Pager.Frames.Give.{give_new_ppn-Given}
use os_from_scratch.Pager.Frames.Replace.{Given}
use os_from_scratch.Pager.Sound.{IsSound}
use os_from_scratch.Pager.Sound.Calls.{calls-IsSound}
use os_from_scratch.Pager.Sound.Name.{translate_from_other_addr_space_ends}
use os_from_scratch.Pager.Grants.Fault.{IsAllowed, vm_fault-IsAllowed}
use os_from_scratch.Tests.MachineInMemory.{Table, machine}
use os_from_scratch.Tests.PagerRuns.{after, readable_files, first, copying, sharing}

after-IsSound : (n : ℕ) (calls : List (Call Bytes Table)) → 2 ≤ n → IsSound n (after n calls)
unfolding after
after-IsSound n calls c = calls-IsSound machine (λ _. []) readable_files n 4 calls c

-- One page, which is in a frame and has one block.
abbrev ending : List (Call Bytes Table)
ending = create 0 1 ∷ map none 0 ∷ fault first true ∷ []

sweep-Swept_example :
    Swept 3 (after 3 copying) (sweep (suc (length (after 3 copying).clock_queue)) (after 3 copying))
unfolding after
sweep-Swept_example =
    sweep-Swept (after 3 copying) (after-IsSound 3 copying (omega arith)).framed.frames refl

-- The second page of the run is a file's, and is not in memory.
abbrev named : List (Call Bytes Table)
named = create 0 1 ∷ map none 0 ∷ fault first true ∷ store 1 (65 ∷ 0 ∷ []) ∷ map (some first) 3 ∷ []

give_new_ppn-Given_example :
    Given machine 2 (after 2 named) 1 (give_new_ppn machine (after 2 named) 1)
unfolding after
give_new_ppn-Given_example =
    give_new_ppn-Given machine (after 2 named) (after-IsSound 2 named (omega arith)).framed.frames 1
      (omega arith) refl (omega arith)

translate_from_other_addr_space_ends_example :
    (translate_from_other_addr_space machine (after 3 named) first).1 ≢ out_of_fuel
translate_from_other_addr_space_ends_example =
    translate_from_other_addr_space_ends machine (omega arith) (after 3 named) first
      (after-IsSound 3 named (omega arith))

-- The page at the first address has the entry of the current process.
shared_entry :
    (p : ℕ)
    → find_va
        (first - first % vm_pagesize)
        (vas_of ((after 3 sharing).translate_va (after 3 sharing).current_pid))
      ≡ some p
    → has_ptr
        (va_to_pte (first - first % vm_pagesize) (after 3 sharing).current_pid)
        ((after 3 sharing).pages p).affiliated
      ≡ true
unfolding after
shared_entry zero e = refl
shared_entry (suc p) e = absurd (ground arith)

vm_fault-IsAllowed_example :
    IsAllowed machine
      (vm_fault machine (after 3 sharing) first true).0
      (after 3 sharing).current_pid
      (first - first % vm_pagesize)
      true
unfolding after
vm_fault-IsAllowed_example =
    vm_fault-IsAllowed machine (omega arith) (after 3 sharing)
      (after-IsSound 3 sharing (omega arith)) first true shared_entry refl refl
