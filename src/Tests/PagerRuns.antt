-- ===== src/Tests/PagerRuns.antt =====
-- vm_pager.cpp: runs with one page of memory beside the null page, and with two.
use os_from_scratch.Common.{
  ℕ, ◌+◌, ◌≡◌, refl, true, false, List, [], ◌∷◌, Option, none, some, Bytes, bytes_eq,
}
use os_from_scratch.Pager.{
  Pager, vm_arena_baseaddr, vm_pagesize, va_to_pte, find_va, insert_va, remove_from_filename_block,
}
use os_from_scratch.Pager.Ptes.{
  enables_for, enables, can_update, write_pte, write_through, write_all, update_ptes,
  update_ptes_if_any,
}
use os_from_scratch.Pager.Clock.{
  erase, is_queued, rotate, sweep, write_back, replace, evict_front, evict_and_replace, frame_from,
  give_new_ppn, return_frame, return_ppn_remove_from_clock,
}
use os_from_scratch.Pager.Fault.{
  last_block, drop_last, erase_ptr, has_ptr, pte_readable, private_page, without_ptr, mark_written,
  fill_frame, load_page, mark_accessed, if_loaded, access_page, copy_data, detach, copy_page,
  if_readable, fault_on, vm_fault,
}
use os_from_scratch.Pager.Name.{faulted_in, locate, read_name, translate_from_other_addr_space}
use os_from_scratch.Pager.Space.{
  null_page, file_page, add_page, swap_to_null, make_swap_to_nullpage, share_page, new_file_page,
  map_file, advance, map_named, map_swap, vm_map,
}
use os_from_scratch.Pager.Process.{
  count_up, vm_init, swap_needed, take_swap, inherit_page, inherit_all, insert_table, inherit_from,
  start_first, vm_create, vm_switch, give_back_block, release_page, release_all, vm_destroy,
}
use os_from_scratch.Pager.Calls.{
  Call, create, switch, map, fault, destroy, store, unstarted, perform, perform_all, run,
}
use os_from_scratch.Tests.MachineInMemory.{Table, machine, byte}

-- Each block of a file holds its number.
abbrev pub readable_files : Option Bytes → ℕ → Option Bytes
readable_files n b = some (b ∷ [])

abbrev pub first : ℕ
first = vm_arena_baseaddr

abbrev pub second : ℕ
second = vm_arena_baseaddr + vm_pagesize

unfoldable pub after : ℕ → List (Call Bytes Table) → Pager Bytes Table
unfolding va_to_pte find_va insert_va remove_from_filename_block enables_for enables can_update
    write_pte write_through write_all update_ptes update_ptes_if_any erase is_queued rotate sweep
    write_back replace evict_front evict_and_replace frame_from give_new_ppn return_frame
    return_ppn_remove_from_clock last_block drop_last erase_ptr has_ptr pte_readable private_page
    without_ptr mark_written fill_frame load_page mark_accessed if_loaded access_page copy_data
    detach copy_page if_readable fault_on vm_fault faulted_in locate read_name
    translate_from_other_addr_space null_page file_page add_page swap_to_null make_swap_to_nullpage
    share_page new_file_page map_file advance map_named map_swap vm_map count_up vm_init swap_needed
    take_swap inherit_page inherit_all insert_table inherit_from start_first vm_create vm_switch
    give_back_block release_page release_all vm_destroy unstarted perform perform_all run byte
    bytes_eq
after memory_pages calls = run machine (λ _. []) readable_files memory_pages 4 calls

-- Two pages take turns in one page of memory.
abbrev evicting : List (Call Bytes Table)
evicting =
    create 0 1
    ∷ map none 0
    ∷ map none 0
    ∷ fault first true
    ∷ store 1 (7 ∷ [])
    ∷ fault second true
    ∷ []

evicting_saved : (after 2 evicting).files none 0 ≡ some (7 ∷ [])
unfolding after
evicting_saved = refl

-- The first page is read again.
abbrev again : List (Call Bytes Table)
again =
    create 0 1
    ∷ map none 0
    ∷ map none 0
    ∷ fault first true
    ∷ store 1 (7 ∷ [])
    ∷ fault second true
    ∷ fault first false
    ∷ []

again_read : (after 2 again).memory 1 ≡ 7 ∷ []
unfolding after
again_read = refl

-- A child writes to a page that it shares with its parent: the copy takes the page's memory, and
-- the parent's data is on its block.
abbrev pub copying : List (Call Bytes Table)
copying =
    create 0 1
    ∷ map none 0
    ∷ fault first true
    ∷ store 1 (7 ∷ [])
    ∷ create 1 2
    ∷ switch 2
    ∷ fault first true
    ∷ []

copying_small : (after 2 copying).memory 1 ≡ 7 ∷ []
unfolding after
copying_small = refl

copying_saved : (after 2 copying).files none 0 ≡ some (7 ∷ [])
unfolding after
copying_saved = refl

copying_large : (after 3 copying).memory 2 ≡ 7 ∷ []
unfolding after
copying_large = refl

-- The state before the write.
abbrev pub sharing : List (Call Bytes Table)
sharing = create 0 1 ∷ map none 0 ∷ fault first true ∷ store 1 (7 ∷ []) ∷ create 1 2 ∷ switch 2 ∷ []

-- A file's name, "A", in the first page: the second page is the file's block 3.
abbrev pub naming : List (Call Bytes Table)
naming =
    create 0 1
    ∷ map none 0
    ∷ fault first true
    ∷ store 1 (65 ∷ 0 ∷ [])
    ∷ map (some first) 3
    ∷ fault second false
    ∷ []

naming_read : (after 3 naming).memory 2 ≡ 3 ∷ []
unfolding after
naming_read = refl

-- The processes' end frees the pages of the swap file.
destroying_free :
    (after 3 (create 0 1 ∷ map none 0 ∷ fault first true ∷ destroy ∷ [])).next_free_ppn ≡ 2 ∷ 1 ∷ []
unfolding after
destroying_free = refl

destroying_sound :
    (after 3 (create 0 1 ∷ map none 0 ∷ fault first true ∷ destroy ∷ [])).aborted ≡ false
unfolding after
destroying_sound = refl
