-- ===== src/FileSystem/Started/Walk.antt =====
-- filesystem.cpp, initial_traverse_helper: what the walk inserts, and what is in use on the disk.
use os_from_scratch.Common.{
  ℕ, ◌≡◌, ◌≢◌, ◌⊎◌, inl, inr, refl, Bool, true, false, ◌||◌, List, [], ◌∷◌, ◌==◌, arith, Bool-cases,
  subst, sym, ==→≡,
}
use os_from_scratch.Disk.{Direntry}
use os_from_scratch.FileSystem.Init.{
  Checked, done, assert_failed, out_of_fuel, contains, mark, mark_all,
}

-- The entries name inode `c`.
unfoldable pub lists : List Direntry → ℕ → Bool
lists [] c = false
lists (e ∷ es) c = e.inode_block == c || lists es c

pub Checked-cases :
    {A : Type 0} (r : Checked A)
    → ((a : A) × (r ≡ done a)) ⊎ ((r ≡ assert_failed) ⊎ (r ≡ out_of_fuel))
Checked-cases (done a) = inl (a, refl)
Checked-cases assert_failed = inr (inl refl)
Checked-cases out_of_fuel = inr (inr refl)

abbrev pub Sub : List ℕ → List ℕ → Type 0
Sub u v = (c : ℕ) → contains u c ≡ true → contains v c ≡ true

-- All that was inserted is among `P`.
abbrev pub New : (ℕ → Type 0) → List ℕ → List ℕ → Type 0
New P u v = (c : ℕ) → contains v c ≡ true → (contains u c ≡ true) ⊎ P c

pub New-trans : (P : ℕ → Type 0) (u v w : List ℕ) → New P u v → New P v w → New P u w
New-trans P u v w h k c e = elim (k c e) [ inl y ↦ h c y | inr y ↦ inr y ]

pub mark_lem :
    (u : List ℕ) (b : ℕ) {v : List ℕ} → mark u b ≡ done v → (contains u b ≡ false) × (v ≡ b ∷ u)
unfolding mark
mark_lem u b e = ground arith

pub mark-Sub :
    (u : List ℕ) (b : ℕ) {v : List ℕ} → mark u b ≡ done v → Sub u v × (contains v b ≡ true)
unfolding mark contains
mark-Sub u b e = (λ c h. ground (arith, e, h), ground (arith, e))

pub mark-New :
    (P : ℕ → Type 0) (u : List ℕ) (b : ℕ) {v : List ℕ} → P b → mark u b ≡ done v → New P u v
unfolding mark contains
mark-New P u b {v} p e c h = elim (Bool-cases (c == b)) [
  | inl y ↦ inr (subst P (sym (==→≡ c b y)) p)
  | inr y ↦ inl (ground (arith, mark_lem u b e))
]

pub mark_all-Sub :
    (u bs : List ℕ) {w : List ℕ}
    → mark_all u bs ≡ done w
    → Sub u w × ((c : ℕ) → contains bs c ≡ true → contains w c ≡ true)
unfolding mark_all contains
mark_all-Sub u [] e = (λ c h. ground (arith, e), λ c h. absurd (ground arith))
mark_all-Sub u (b ∷ bs) {w} e = elim (Checked-cases (mark u b)) [
  | inl (v, k) ↦
      let r : Sub v w × ((c : ℕ) → contains bs c ≡ true → contains w c ≡ true) =
        mark_all-Sub v bs (ground (arith, e, k)) in
      let m = mark-Sub u b k in (λ c h. r.0 c (m.0 c h), λ c h. ground (arith, r.1 c, r.0 b m.1))
  | inr (inl k) ↦ absurd (ground arith)
  | inr (inr k) ↦ absurd (ground arith)
]

pub mark_all-New :
    (P : ℕ → Type 0) (u bs : List ℕ) {w : List ℕ}
    → ((c : ℕ) → contains bs c ≡ true → P c)
    → mark_all u bs ≡ done w
    → New P u w
unfolding mark_all contains
mark_all-New P u [] p e = λ c h. inl (ground (arith, e))
mark_all-New P u (b ∷ bs) {w} p e = elim (Checked-cases (mark u b)) [
  | inl (v, k) ↦
      New-trans P u v w (mark-New P u b (p b (ground arith)) k)
        (mark_all-New P v bs (λ c h. p c (ground arith)) (ground arith))
  | inr (inl k) ↦ absurd (ground arith)
  | inr (inr k) ↦ absurd (ground arith)
]

pub mark_all_ends : (u bs : List ℕ) → mark_all u bs ≢ out_of_fuel
unfolding mark_all mark
mark_all_ends u [] = λ e. ground arith
mark_all_ends u (b ∷ bs) = λ e. ground (arith, mark_all_ends (b ∷ u) bs)
