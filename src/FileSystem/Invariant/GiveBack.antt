-- ===== src/FileSystem/Invariant/GiveBack.antt =====
-- Blocks whose role ends go to the free list, in any order.
use mathlib.Core.List.{
  Mem, Nodup, Perm, mem-append, mem-append_left, mem-append_right, Nodup-append, Disjoint-left,
}
use mathlib.Core.List.Perm
use mathlib.Core.Logic.Or
use native.Mathlib.Bridge.{le_prop}
use os_from_scratch.Common.{ℕ, ◌<◌, ◌≡◌, ◌≢◌, ◌⊎◌, inl, inr, List, ◌++◌}
use os_from_scratch.Params.{fs_disksize}
use os_from_scratch.FileSystem.Invariant.{Role, free, Tables, Inv}

pub Role-set : IsSet Role
Role-set = hlevel

abbrev pub Freed : (ℕ → Role) → (ℕ → Role) → ℕ → Type 0
Freed role role' c = (role' c ≡ free) × (role c ≢ free)

pub Freed-prop : (role role' : ℕ → Role) (c : ℕ) → IsProp (Freed role role' c)
Freed-prop role role' c = hlevel Role-set

module _ (t : Tables) (role role' : ℕ → Role) (inv : Inv t role) (ys unused : List ℕ)
    (given : Perm unused (t.unused ++ ys)) (ys_once : Nodup ys)
    (ys_from : (c : ℕ) → Mem c ys → Freed role role' c)
    (ys_to : (c : ℕ) → role' c ≡ free → (role c ≡ free) ⊎ Mem c ys)
    (free_stays : (c : ℕ) → role c ≡ free → role' c ≡ free) where
  from_prop : (c : ℕ) → IsProp ((role' c ≡ free) × (c < fs_disksize))
  from_prop c = hlevel (Role-set, le_prop)

  pub given_from : (c : ℕ) → Mem c unused → (role' c ≡ free) × (c < fs_disksize)
  given_from c m =
      Or.elim (from_prop c) (mem-append.0 ((Perm.mem_iff given).0 m))
        (λ old. (free_stays c (inv.unused_from c old).0, (inv.unused_from c old).1))
        (λ new. ((ys_from c new).0, inv.in_range c (ys_from c new).1))

  pub given_to : (c : ℕ) → role' c ≡ free → c < fs_disksize → Mem c unused
  given_to c h k = elim (ys_to c h) [
    | inl e ↦ (Perm.mem_iff given).1 (mem-append_left ys (inv.unused_to c e k))
    | inr m ↦ (Perm.mem_iff given).1 (mem-append_right t.unused m)
  ]

  pub given_once : Nodup unused
  given_once = Perm.nodup (Perm.symm given) (
      Nodup-append.1 (
        inv.unused_once,
        ys_once,
        Disjoint-left.1 (λ c old new. (ys_from c new).1 (inv.unused_from c old).0),
      ))
