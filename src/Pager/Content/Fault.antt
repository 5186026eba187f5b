-- ===== src/Pager/Content/Fault.antt =====
-- vm_pager.cpp, vm_fault: what the processes find in their arenas.
use os_from_scratch.Common.{
  ℕ, ◌<◌, ◌≡◌, ◌≢◌, refl, Bool, true, false, List, [], ◌∷◌, Option, none, some, ◌==◌, if◌then◌else◌,
  arith,
}
use os_from_scratch.Pager.{Machine, Pager, find_va, insert_va, vas_of}
use os_from_scratch.Pager.Fault.{pte_readable, copy_page, if_readable}
use os_from_scratch.Pager.Sound.{Maps}
use os_from_scratch.Pager.Content.{content}
use os_from_scratch.Pager.Content.Kept.{Differ}

pub find_va-insert_va :
    (va p a : ℕ) (l : List (ℕ × ℕ))
    → find_va a (insert_va va p l) ≡ (if a == va then some p else find_va a l)
unfolding find_va insert_va
find_va-insert_va va p a [] = ground arith
find_va-insert_va va p a ((b, q) ∷ l) = ground (arith, find_va-insert_va va p a l)

module _ (m : Machine) where
  open m use {Page, Files}

  -- What there is of a page: the data, or nothing where no page is mapped.
  unfoldable pub data_of : Pager Page Files → Option ℕ → Option (Option Page)
  unfolding content
  data_of s none = none
  data_of s (some p) = some (content m s (s.pages p))

  -- What the pager holds for an address of a process's arena. A file's block that cannot be read has no data.
  unfoldable pub arena_at : Pager Page Files → ℕ → ℕ → Option (Option Page)
  unfolding find_va data_of
  arena_at s pid va = data_of s (find_va va (vas_of (s.translate_va pid)))

  -- What a copy-on-write needs: the page is known to be in memory if it can be read, and no other
  -- page has its block.
  pub record IsCopyable (s : Pager Page Files) (p : ℕ) : Type 0 where
    pub seen :
        pte_readable s.process_table (s.pages p).affiliated ≡ true → (s.pages p).resident ≡ true
    pub own : (q : ℕ) → q < s.next_page → p ≢ q → Differ m (s.pages p) (s.pages q)

  pub if_readable_yes :
      (t : Pager Page Files × Bool) (p va : ℕ)
      → t.1 ≡ true
      → (if_readable m t p va).0 ≡ copy_page m t.0 p va
  unfolding if_readable
  if_readable_yes (s, true) p va e = refl
  if_readable_yes (s, false) p va e = absurd (ground arith)
