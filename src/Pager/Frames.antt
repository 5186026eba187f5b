-- ===== src/Pager/Frames.antt =====
-- vm_pager.cpp: who has which physical page. Frame 0 is the page of zeroes.
pub mod Changes
pub mod Turn
pub mod Sweep
pub mod Disabled
pub mod Replace
pub mod Give
use os_from_scratch.Common.{
  ℕ, zero, suc, ◌+◌, ◌<◌, ◌≤◌, ◌≡◌, ◌≢◌, ◌⊎◌, inl, inr, refl, Bool, true, false, not, ◌&&◌, ◌||◌,
  List, [], ◌∷◌, ◌++◌, Option, none, some, ◌==◌, if◌then◌else◌, length, update, arith,
  length-append, Bool-cases,
}
use os_from_scratch.Pager.{PhysicalPage, VirtualPage, Pager}
use os_from_scratch.Pager.Clock.{erase, is_queued}
use os_from_scratch.Pager.Fault.{ppn_of}

-- No number is listed twice.
unfoldable pub distinct : List ℕ → Bool
unfolding is_queued
distinct [] = true
distinct (x ∷ xs) = not (is_queued x xs) && distinct xs

-- Each frame but 0 is free or belongs to one page, and no frame is lost; the clock has exactly the
-- pages with a frame.
pub record Frames (cap : ℕ) (pages : ℕ → VirtualPage) (clock free : List ℕ) (next : ℕ)
    : Type 0 where
  pub queued_iff : (p : ℕ) → is_queued p clock ≡ not (ppn_of (pages p) == 0)
  pub once : distinct clock ≡ true
  pub unshared : (p q : ℕ) → ppn_of (pages p) ≢ 0 → ppn_of (pages p) ≡ ppn_of (pages q) → p ≡ q
  pub bounded : (p : ℕ) → ppn_of (pages p) < cap
  pub free_bounded : (x : ℕ) → is_queued x free ≡ true → (x ≢ 0) × (x < cap)
  pub unheld : (x p : ℕ) → is_queued x free ≡ true → ppn_of (pages p) ≢ x
  pub free_once : distinct free ≡ true
  pub counted : length clock + length free + 1 ≡ cap
  -- No page has a number that was not given out.
  pub fresh : (p : ℕ) → next ≤ p → (pages p).physical_page ≡ none

abbrev pub is_some {ℓ} : {A : Type ℓ} → Option A → Bool
is_some none = false
is_some (some _) = true

-- The flag `resident` says whether there is a physical page.
abbrev pub Resident : VirtualPage → Type 0
Resident v = v.resident ≡ is_some v.physical_page

abbrev pub FramesOf : {Page Files : Type 0} → ℕ → Pager Page Files → Type 0
FramesOf cap s = Frames cap s.pages s.clock_queue s.next_free_ppn s.next_page

-- What holds of the frames between two calls.
pub record IsFramed (cap : ℕ) (pages : ℕ → VirtualPage) (clock free : List ℕ) (next : ℕ)
    : Type 0 where
  pub frames : Frames cap pages clock free next
  pub resident_iff : (p : ℕ) → Resident (pages p)

abbrev pub Framed : {Page Files : Type 0} → ℕ → Pager Page Files → Type 0
Framed cap s = IsFramed cap s.pages s.clock_queue s.next_free_ppn s.next_page

pub is_queued-append :
    (p : ℕ) (xs ys : List ℕ) → is_queued p (xs ++ ys) ≡ (is_queued p xs || is_queued p ys)
unfolding is_queued
is_queued-append p [] ys = refl
is_queued-append p (x ∷ xs) ys = ground (arith, is_queued-append p xs ys)

pub distinct-append_one :
    (xs : List ℕ) (y : ℕ) → distinct (xs ++ y ∷ []) ≡ (not (is_queued y xs) && distinct xs)
unfolding distinct is_queued
distinct-append_one [] y = refl
distinct-append_one (x ∷ xs) y =
    ground (arith, distinct-append_one xs y, is_queued-append x xs (y ∷ []))

pub is_queued-erase :
    (p q : ℕ) (xs : List ℕ)
    → distinct xs ≡ true
    → is_queued q (erase p xs) ≡ (is_queued q xs && not (q == p))
unfolding erase is_queued distinct
is_queued-erase p q [] h = refl
is_queued-erase p q (x ∷ xs) h = ground (arith, is_queued-erase p q xs)

pub distinct-erase : (p : ℕ) (xs : List ℕ) → distinct xs ≡ true → distinct (erase p xs) ≡ true
unfolding erase distinct
distinct-erase p [] h = refl
distinct-erase p (x ∷ xs) h = ground (arith, distinct-erase p xs, is_queued-erase p x xs)

pub length-erase :
    (p : ℕ) (xs : List ℕ) → is_queued p xs ≡ true → suc (length (erase p xs)) ≡ length xs
unfolding erase is_queued
length-erase p [] h = absurd (ground arith)
length-erase p (x ∷ xs) h = ground (arith, length-erase p xs)
