-- ===== src/Pager/Content.antt =====
-- vm_pager.cpp: what a page holds, wherever it is: in memory, or on its block.
pub mod Evict
pub mod Load
pub mod Detach
pub mod Copy
pub mod Kept
pub mod Filled
pub mod Coherent
pub mod Maps
pub mod Fault
use os_from_scratch.Common.{
  ℕ, ◌<◌, ◌≤◌, ◌≡◌, ◌≢◌, ◌⊎◌, Bool, true, false, not, List, [], ◌∷◌, Option, none, some, Bytes,
  ◌==◌, length, if◌then◌else◌,
}
use os_from_scratch.Pager.{PhysicalPage, VirtualPage, Machine, Pager, front}
use os_from_scratch.Pager.Clock.{backing}
use os_from_scratch.Pager.Fault.{ppn_of}

module _ (m : Machine) where
  open m use {Page, Files, zero_page, file_read, file_of}

  unfoldable pub content : Pager Page Files → VirtualPage → Option Page
  content s v =
      if v.resident
      then some (s.memory (ppn_of v))
      else file_read s.files (backing v) (front v.blocks)

  -- The block of a page in memory can be read, and holds the page's data if it is not dirty.
  abbrev pub IsBacked : Pager Page Files → Type 0
  IsBacked s =
      (e : ℕ) (f : PhysicalPage)
      → (s.pages e).physical_page ≡ some f
      → f.ppn ≢ 0
      → (x : Page) × (file_read s.files (backing (s.pages e)) (front (s.pages e).blocks) ≡ some x)
        × (f.dirty ≡ false → x ≡ s.memory f.ppn)

  -- The block that the page `q` is read from is no other page's that is in memory, under
  -- whatever name of its file.
  abbrev pub IsApart : Pager Page Files → ℕ → Type 0
  IsApart s q =
      (e : ℕ)
      → e ≢ q
      → ppn_of (s.pages e) ≢ 0
      → (file_of (backing (s.pages e)) ≢ file_of (backing (s.pages q)))
        ⊎ (front (s.pages e).blocks ≢ front (s.pages q).blocks)

  -- The null page is zero, and no page that is still in it is shared.
  pub record IsCoherent (s : Pager Page Files) : Type 0 where
    pub backed : IsBacked s
    pub apart : (q : ℕ) → q < s.next_page → IsApart s q
    pub zeroed : s.memory 0 ≡ zero_page
    pub unshared :
        (q : ℕ)
        → (s.pages q).resident ≡ true
        → ppn_of (s.pages q) ≡ 0
        → length (s.pages q).blocks ≤ 1
