-- ===== src/Pager/Frames/Turn.antt =====
-- vm_pager.cpp, evict_and_replace: one turn of the loop, and the pages' bits.
use os_from_scratch.Common.{
  ℕ, ◌+◌, ◌≤◌, ◌≡◌, ◌⊎◌, inl, inr, refl, subst, Bool, true, false, List, [], ◌∷◌, ◌++◌, none, some,
  if◌then◌else◌, length, update, arith, Bool-cases,
}
use os_from_scratch.Pager.{PhysicalPage, VirtualPage, Pager, is_empty}
use os_from_scratch.Pager.Ptes.{can_update, update_ptes, update_ptes_if_any}
use os_from_scratch.Pager.Clock.{is_queued, rotate}

-- The page's bit is set.
abbrev pub is_clocked : VirtualPage → Bool
is_clocked v = elim v.physical_page [ none ↦ false | some f ↦ f.clocked ]

-- How many pages of the clock have it set.
unfoldable pub marked : (ℕ → VirtualPage) → List ℕ → ℕ
marked pages [] = 0
marked pages (p ∷ ps) = (if is_clocked (pages p) then 1 else 0) + marked pages ps

pub marked-append :
    (pages : ℕ → VirtualPage) (xs ys : List ℕ)
    → marked pages (xs ++ ys) ≡ marked pages xs + marked pages ys
unfolding marked
marked-append pages [] ys = omega arith
marked-append pages (x ∷ xs) ys = omega (arith, marked-append pages xs ys)

pub marked-update :
    (pages : ℕ → VirtualPage) (p : ℕ) (v : VirtualPage) (xs : List ℕ)
    → is_queued p xs ≡ false
    → marked (update pages p v) xs ≡ marked pages xs
unfolding marked is_queued
marked-update pages p v [] h = refl
marked-update pages p v (x ∷ xs) h = ground (arith, marked-update pages p v xs)

pub marked-le : (pages : ℕ → VirtualPage) (xs : List ℕ) → marked pages xs ≤ length xs
unfolding marked
marked-le pages [] = omega arith
marked-le pages (x ∷ xs) = ground (arith, marked-le pages xs)

-- A page whose bit is clear.
abbrev pub unclocked : PhysicalPage → PhysicalPage
unclocked f = record f { clocked = false }

abbrev pub cleared : VirtualPage → PhysicalPage → VirtualPage
cleared v f = record v { physical_page = some (unclocked f) }

-- The asserts ask nothing of a page that is not clocked but that it has an entry.
cleared-can_update :
    (v : VirtualPage) (f : PhysicalPage)
    → is_empty v.affiliated ≡ false
    → can_update (cleared v f) ≡ true
unfolding can_update
cleared-can_update v f e = ground arith

module _ {Page Files : Type 0} where
  -- Only pages, their PTEs and the clock differ.
  abbrev pub OnlyPages : Pager Page Files → Pager Page Files → Type 0
  OnlyPages s t =
      t ≡ record s { process_table = t.process_table; pages = t.pages; clock_queue = t.clock_queue }

  pub rotate-OnlyPages :
      (s : Pager Page Files) (p : ℕ) (f : PhysicalPage) (rest : List ℕ)
      → OnlyPages s (rotate s p f rest)
  unfolding rotate update_ptes_if_any update_ptes
  rotate-OnlyPages s p f rest = elim (Bool-cases (is_empty (s.pages p).affiliated)) [
    | inl e ↦ rw e refl
    | inr e ↦ rw (e, cleared-can_update (s.pages p) f e) refl
  ]

  pub rotate-pages :
      (s : Pager Page Files) (p : ℕ) (f : PhysicalPage) (rest : List ℕ)
      → (rotate s p f rest).pages ≡ update s.pages p (cleared (s.pages p) f)
  unfolding rotate update_ptes_if_any update_ptes
  rotate-pages s p f rest = elim (Bool-cases (is_empty (s.pages p).affiliated)) [
    | inl e ↦ rw e refl
    | inr e ↦ rw e refl
  ]

  pub rotate-clock :
      (s : Pager Page Files) (p : ℕ) (f : PhysicalPage) (rest : List ℕ)
      → (rotate s p f rest).clock_queue ≡ rest ++ p ∷ []
  unfolding rotate
  rotate-clock s p f rest = refl

-- A page is as it was, or has had its bit cleared.
abbrev pub Cleared : VirtualPage → VirtualPage → Type 0
Cleared v w = (w ≡ v) ⊎ ((f : PhysicalPage) × (v.physical_page ≡ some f) × (w ≡ cleared v f))

pub Cleared-trans : (u v w : VirtualPage) → Cleared u v → Cleared v w → Cleared u w
Cleared-trans u v w h (inl e) = rw e h
Cleared-trans u v w (inl d) (inr k) = subst (λ x. Cleared x w) d (inr k)
Cleared-trans u v w (inr (f, e, d)) (inr (g, k, l)) = inr (f, e, ground arith)

-- The first page of the list with a clear bit, or `last`.
unfoldable pub first_clear : (ℕ → VirtualPage) → List ℕ → ℕ → ℕ
first_clear pages [] last = last
first_clear pages (p ∷ ps) last = if is_clocked (pages p) then first_clear pages ps last else p

-- Where the clock's hand stops: at the first page with a clear bit, or where it began.
unfoldable pub second_chance : (ℕ → VirtualPage) → List ℕ → ℕ
unfolding first_clear
second_chance pages [] = 0
second_chance pages (p ∷ ps) = first_clear pages (p ∷ ps) p

pub first_clear-append :
    (pages : ℕ → VirtualPage) (xs : List ℕ) (p : ℕ) (v : VirtualPage) (last : ℕ)
    → is_queued p xs ≡ false
    → is_clocked v ≡ false
    → first_clear (update pages p v) (xs ++ p ∷ []) last ≡ first_clear pages xs p
unfolding first_clear is_queued
first_clear-append pages [] p v last h c = ground arith
first_clear-append pages (x ∷ xs) p v last h c =
    ground (arith, first_clear-append pages xs p v last)
