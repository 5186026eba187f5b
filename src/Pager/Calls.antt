-- ===== src/Pager/Calls.antt =====
-- vm_pager.h: the calls by which the infrastructure uses the pager, and runs of them. Between two
-- calls the current process may write to a page of memory, and the files may change: one that
-- could not be accessed may be accessible later.
use os_from_scratch.Common.{ℕ, Bool, false, List, [], ◌∷◌, Option, none, update}
use os_from_scratch.Pager.{VirtualPage, Machine, Pager}
use os_from_scratch.Pager.Fault.{vm_fault}
use os_from_scratch.Pager.Space.{vm_map}
use os_from_scratch.Pager.Process.{vm_init, vm_create, vm_switch, vm_destroy}

pub data Call (Page Files : Type 0) : Type 0 where
  create : (parent child : ℕ) → Call Page Files
  switch : (pid : ℕ) → Call Page Files
  map : (their_filename : Option ℕ) (block : ℕ) → Call Page Files
  fault : (addr : ℕ) (write_flag : Bool) → Call Page Files
  destroy : Call Page Files
  store : (ppn : ℕ) (content : Page) → Call Page Files
  change_files : (files : Files) → Call Page Files

abbrev no_page : VirtualPage
no_page = record {
  affiliated = [];
  is_swap = false;
  filename = [];
  blocks = [];
  physical_page = none;
  resident = false;
}

module _ (m : Machine) where
  open m use {Page, Files}

  -- The global variables before vm_init.
  unfoldable pub unstarted : (ℕ → Page) → Files → Pager Page Files
  unstarted memory files = record {
    process_table = λ _. none;
    translate_va = λ _. none;
    next_free_va = λ _. 0;
    filename_block_to_vpage = λ _ _. none;
    next_free_swap = [];
    next_free_ppn = [];
    clock_queue = [];
    current_pid = 0;
    pages = λ _. no_page;
    next_page = 0;
    memory = memory;
    files = files;
    aborted = false;
  }

  unfoldable pub perform : Pager Page Files → Call Page Files → Pager Page Files
  unfolding vm_create vm_switch vm_map vm_fault vm_destroy
  perform s (create parent child) = (vm_create s parent child).0
  perform s (switch pid) = vm_switch s pid
  perform s (map their_filename block) = (vm_map m s their_filename block).0
  perform s (fault addr write_flag) = (vm_fault m s addr write_flag).0
  perform s destroy = vm_destroy m s
  perform s (change_files files) = record s { files = files }
  perform s (store ppn content) = record s { memory = update s.memory ppn content }

  unfoldable pub perform_all : Pager Page Files → List (Call Page Files) → Pager Page Files
  unfolding perform
  perform_all s [] = s
  perform_all s (call ∷ calls) = perform_all (perform s call) calls

  -- The machine starts the pager, and then uses it.
  unfoldable pub run : (ℕ → Page) → Files → ℕ → ℕ → List (Call Page Files) → Pager Page Files
  unfolding perform_all vm_init unstarted
  run memory files memory_pages swap_blocks calls =
      perform_all (vm_init m (unstarted memory files) memory_pages swap_blocks) calls
