-- ===== src/FileSystem/Invariant/Allocate.antt =====
-- The first block of the free list is taken and gets a role.
use mathlib.Core.List.{Mem, Mem-prop, Nodup, mem-cons, mem-cons_self, mem-cons_of_mem, Nodup-cons}
use mathlib.Core.Logic.Or
use os_from_scratch.Common.{
  ℕ, ◌<◌, ◌≡◌, ◌≢◌, inl, inr, sym, subst, List, ◌∷◌, ◌==◌, arith, Bool-cases,
}
use os_from_scratch.Params.{fs_disksize}
use os_from_scratch.FileSystem.Invariant.{Role, free, Tables, Inv, assign}

module _ (t : Tables) (role : ℕ → Role) (inv : Inv t role) (n : ℕ) (rest : List ℕ)
    (taken : t.unused ≡ n ∷ rest) where
  pub first_free : (role n ≡ free) × (n < fs_disksize)
  first_free = inv.unused_from n (subst (Mem n) (sym taken) mem-cons_self)

  pub rest_once : (¬ Mem n rest) × Nodup rest
  rest_once = Nodup-cons.0 (subst Nodup taken inv.unused_once)

  pub rest_unused_from :
      (r : Role) (c : ℕ) → Mem c rest → (assign role n r c ≡ free) × (c < fs_disksize)
  rest_unused_from r c m = ground (
    arith,
    λ (e : c ≡ n). rest_once.0 (subst (λ x. Mem x rest) e m),
    inv.unused_from c (subst (Mem c) (sym taken) (mem-cons_of_mem n m)),
  )

  pub rest_unused_to :
      (r : Role) → r ≢ free → (c : ℕ) → assign role n r c ≡ free → c < fs_disksize → Mem c rest
  rest_unused_to r used c h k = elim (Bool-cases (c == n)) [
    | inl e ↦ absurd (ground arith)
    | inr e ↦
        Or.elim Mem-prop (mem-cons.0 (subst (Mem c) taken (inv.unused_to c (ground arith) k)))
          (λ (o : c ≡ n). absurd (ground arith)) (λ m. m)
  ]
