-- ===== src/Pager.antt =====
-- pager_library: the pager's data structures, and what the infrastructure gives it.
-- vm_pager.h and Page.h declare them; the global variables stand at the top of vm_pager.cpp.
pub mod Ptes
pub mod Clock
pub mod Fault
pub mod Name
pub mod Space
pub mod Process
pub mod Calls
pub mod Frames
pub mod Sound
pub mod Content
pub mod Grants
use os_from_scratch.Common.{
  ℕ, zero, suc, ◌+◌, ◌-◌, ◌*◌, ◌/◌, ◌%◌, ◌≡◌, ◌≢◌, ◌⊎◌, Bool, true, false, not, ◌&&◌, ◌||◌, List,
  [], ◌∷◌, ◌++◌, Option, none, some, ◌==◌, if◌then◌else◌, Bytes, bytes_eq, update, length,
}

abbrev pub vm_pagesize : ℕ
vm_pagesize = 65536

abbrev pub vm_arena_baseaddr : ℕ
vm_arena_baseaddr = 0x600000000

abbrev pub vm_arena_size : ℕ
vm_arena_size = 0x1000000

abbrev pub vm_arena_maxaddr : ℕ
vm_arena_maxaddr = vm_arena_baseaddr + vm_arena_size

-- struct page_table_entry_t; `ppage` has 20 bits.
pub record Pte : Type 0 where
  pub ppage : ℕ
  pub read_enable : Bool
  pub write_enable : Bool

abbrev pub ppage_limit : ℕ
ppage_limit = 1048576

-- A `page_table_entry_t*`: the process whose table it points into, and the entry's index.
pub record PtePtr : Type 0 where
  pub process : ℕ
  pub index : ℕ

pub record PhysicalPage : Type 0 where
  pub ppn : ℕ
  pub clocked : Bool
  pub dirty : Bool

pub record VirtualPage : Type 0 where
  pub affiliated : List PtePtr
  pub is_swap : Bool
  pub filename : Bytes
  pub blocks : List ℕ
  pub physical_page : Option PhysicalPage
  pub resident : Bool

-- The infrastructure: the content of a page of memory or of a block, and the files. A file without
-- a name is the swap file; `none` from file_read is its -1. A name stands for the file that it
-- resolves to in the working directory, and two names may be one file's. A block that can be read
-- holds what was last written to it, and a write changes no other block and no other file.
pub record Machine : Type 1 where
  pub Page : Type 0
  pub zero_page : Page
  pub byte_at : Page → ℕ → ℕ
  pub Files : Type 0
  pub File : Type 0
  pub file_of : Option Bytes → File
  pub file_read : Files → Option Bytes → ℕ → Option Page
  pub file_write : Files → Option Bytes → ℕ → Page → Files
  pub read-write_self :
      (d : Files) (n : Option Bytes) (b : ℕ) (x : Page) {y : Page}
      → file_read d n b ≡ some y
      → file_read (file_write d n b x) n b ≡ some x
  pub read-write_ne :
      (d : Files) (n m : Option Bytes) (b c : ℕ) (x : Page)
      → (file_of n ≢ file_of m) ⊎ (b ≢ c)
      → file_read (file_write d n b x) m c ≡ file_read d m c

-- The global variables. A VirtualPage is an object on the heap, at a number below `next_page`;
-- the pointers to it are that number. `memory` is vm_physmem, by physical pages, and `aborted` says
-- that an assert has failed or that a pointer that is null was followed. page_table_base_register
-- is always set together with current_pid, to that process's table.
pub record Pager (Page Files : Type 0) : Type 0 where
  pub process_table : ℕ → Option (ℕ → Pte)
  pub translate_va : ℕ → Option (List (ℕ × ℕ))
  pub next_free_va : ℕ → ℕ
  pub filename_block_to_vpage : Bytes → ℕ → Option ℕ
  pub next_free_swap : List ℕ
  pub next_free_ppn : List ℕ
  pub clock_queue : List ℕ
  pub current_pid : ℕ
  pub pages : ℕ → VirtualPage
  pub next_page : ℕ
  pub memory : ℕ → Page
  pub files : Files
  pub aborted : Bool

unfoldable pub va_to_pte : ℕ → ℕ → PtePtr
va_to_pte va process = record { process = process; index = (va - vm_arena_baseaddr) / vm_pagesize }

abbrev pub same_pte : PtePtr → PtePtr → Bool
same_pte a b = a.process == b.process && a.index == b.index

abbrev pub is_empty {ℓ} : {A : Type ℓ} → List A → Bool
is_empty [] = true
is_empty (_ ∷ _) = false

-- front() of a vector that is not empty.
abbrev pub front : List ℕ → ℕ
front [] = 0
front (x ∷ _) = x

-- The inner map of a process, and what it has at an address.
unfoldable pub find_va : ℕ → List (ℕ × ℕ) → Option ℕ
find_va va [] = none
find_va va ((a, p) ∷ l) = if a == va then some p else find_va va l

unfoldable pub insert_va : ℕ → ℕ → List (ℕ × ℕ) → List (ℕ × ℕ)
insert_va va p [] = (va, p) ∷ []
insert_va va p ((a, q) ∷ l) = if a == va then (va, p) ∷ l else (a, q) ∷ insert_va va p l

abbrev pub vas_of : Option (List (ℕ × ℕ)) → List (ℕ × ℕ)
vas_of none = []
vas_of (some l) = l

module _ {Page Files : Type 0} where
  abbrev pub put_page : Pager Page Files → ℕ → VirtualPage → Pager Page Files
  put_page s p v = record s { pages = update s.pages p v }

  -- An assert, or a use of a pointer: the program ends if the condition fails.
  abbrev pub check : Pager Page Files → Bool → Pager Page Files
  check s ok = record s { aborted = if ok then s.aborted else true }

  -- translateVA[pid][va] = p.
  abbrev pub map_va : Pager Page Files → ℕ → ℕ → ℕ → Pager Page Files
  map_va s pid va p = record s {
    translate_va = update s.translate_va pid (some (insert_va va p (vas_of (s.translate_va pid))));
  }

  -- operator[] makes an inner map where there is none.
  abbrev pub touch : Pager Page Files → ℕ → Pager Page Files
  touch s pid = record s {
    translate_va = update s.translate_va pid (some (vas_of (s.translate_va pid)));
  }

  -- The block is erased from the file's inner map, and an inner map that is empty with it.
  unfoldable pub remove_from_filename_block : Pager Page Files → VirtualPage → Pager Page Files
  unfolding bytes_eq
  remove_from_filename_block s v = record s {
    filename_block_to_vpage = λ name block.
        if bytes_eq name v.filename && block == front v.blocks
        then none
        else s.filename_block_to_vpage name block;
  }
