-- ===== src/Common/Membership.antt =====
-- Membership in a list by an index, and what it says of lists without repetition.
use mathlib.Core.List.{Mem, Memᴰ, Nodup, Nodup-cons, Nodup-nil, mem-cons_of_mem}
use mathlib.Core.Logic.{∥∥₁_map, ∥∥₁_elim}
use Prim.Native.Nat.{ℕ, zero, suc}
use mathlib.Core.Path.{◌≡◌, refl, sym, ap}
use mathlib.Core.List.{List, [], ◌∷◌}
use mathlib.Core.Option.{some}
use native.Mathlib.Omega.{arith}
use os_from_scratch.Common.Lists.{get_elem?}

module _ {ℓ} {A : Type ℓ} where
  pub mem-get_elem? : (xs : List A) (i : ℕ) {a : A} → get_elem? xs i ≡ some a → Mem a xs
  mem-get_elem? [] i h = absurd (cc)
  mem-get_elem? (x ∷ xs) zero h = ∣ Memᴰ.head (cc) ∣₁
  mem-get_elem? (x ∷ xs) (suc i) h = mem-cons_of_mem x (mem-get_elem? xs i h)

  index_of : (xs : List A) {a : A} → Memᴰ a xs → (i : ℕ) × (get_elem? xs i ≡ some a)
  index_of [] m = elim m [ ]
  index_of (x ∷ xs) (Memᴰ.head e) = (0, ap some (sym e))
  index_of (x ∷ xs) (Memᴰ.tail m) = let (i, h) = index_of xs m in (suc i, h)

  pub mem_index : (xs : List A) {a : A} → Mem a xs → ∥ ((i : ℕ) × (get_elem? xs i ≡ some a)) ∥₁
  mem_index xs {a} m = ∥∥₁_map {B = (i : ℕ) × (get_elem? xs i ≡ some a)} m (index_of xs)

  pub Nodup-of_index :
      (xs : List A)
      → ((i j : ℕ) (a : A) → get_elem? xs i ≡ some a → get_elem? xs j ≡ some a → i ≡ j)
      → Nodup xs
  Nodup-of_index [] h = Nodup-nil
  Nodup-of_index (x ∷ xs) h = Nodup-cons.1 (
    λ m.
        ∥∥₁_elim (mem_index xs m) (λ a b. absurd a)
          (λ (i, e). absurd (ground (arith, h 0 (suc i) x refl e))),
    Nodup-of_index xs (λ i j a p q. ground (arith, h (suc i) (suc j) a p q)),
  )
