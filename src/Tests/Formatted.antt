-- ===== src/Tests/Formatted.antt =====
-- A freshly made file system: block 0 is the root, and the others are free.
use mathlib.Core.List.{Mem, Nodup}
use mathlib.Core.Logic.{∥∥₁_elim}
use os_from_scratch.Common.{
  ℕ, zero, suc, ◌+◌, ◌-◌, ◌<◌, ◌≤◌, ◌≡◌, refl, inl, inr, [], some, get_elem?, ◌==◌, arith,
  if◌then◌else◌, Bool-cases, ltb, leb, mem-get_elem?, mem_index, Nodup-of_index,
}
use os_from_scratch.Disk.{Store}
use os_from_scratch.FileSystem.Init.{contains, unused_from}
use os_from_scratch.FileSystem.Invariant.{Role, free, root, Inv, tables, IsSound}
use os_from_scratch.Tests.Memory.{MemoryBlock, memory, empty_disk, to_inode, fit_inode, fit}

get_elem?-unused_from :
    (n i j : ℕ) {c : ℕ} → get_elem? (unused_from n i []) j ≡ some c → (j < n) × (c ≡ i + j)
unfolding unused_from contains
get_elem?-unused_from zero i j h = absurd (cc)
get_elem?-unused_from (suc n) i zero h = ground arith
get_elem?-unused_from (suc n) i (suc j) h = ground (arith, get_elem?-unused_from n (i + 1) j h)

unused_from-get_elem? : (n i j : ℕ) → j < n → get_elem? (unused_from n i []) j ≡ some (i + j)
unfolding unused_from contains
unused_from-get_elem? zero i j h = absurd (omega arith)
unused_from-get_elem? (suc n) i zero h = ground arith
unused_from-get_elem? (suc n) i (suc j) h =
    ground (arith, unused_from-get_elem? n (i + 1) j (omega arith))

-- A block that satisfies no test is not in the free list.
unused_below : (n i c : ℕ) → Mem c (unused_from n i []) → (i ≤ c) × (c < i + n)
unused_below n i c m = elim (Bool-cases (leb i c)) [
  | inl l ↦ elim (Bool-cases (ltb c (i + n))) [
    | inl u ↦ ground arith
    | inr u ↦ absurd (
        ∥∥₁_elim (mem_index (unused_from n i []) m) (λ a b. absurd a)
          (λ (j, e). ground (arith, get_elem?-unused_from n i j e)))
  ]
  | inr l ↦ absurd (
      ∥∥₁_elim (mem_index (unused_from n i []) m) (λ a b. absurd a)
        (λ (j, e). ground (arith, get_elem?-unused_from n i j e)))
]

unused_above : (n i c : ℕ) → i ≤ c → c < i + n → Mem c (unused_from n i [])
unused_above n i c l u =
    mem-get_elem? (unused_from n i []) (c - i)
      (ground (arith, unused_from-get_elem? n i (c - i) (omega arith)))

unused_once : (n i : ℕ) → Nodup (unused_from n i [])
unused_once n i =
    Nodup-of_index (unused_from n i [])
      (λ j k a p q. ground (arith, get_elem?-unused_from n i j p, get_elem?-unused_from n i k q))

unfoldable pub formatted : Store (ℕ → MemoryBlock)
formatted = record { disk = empty_disk; free = unused_from 4095 1 [] }

abbrev pub first_roles : ℕ → Role
first_roles b = if b == 0 then root else free

pub formatted-Inv : Inv (tables memory formatted) first_roles
unfolding formatted to_inode fit_inode fit
formatted-Inv = record {
  root_role = refl;
  root_type = refl;
  in_range = λ c h. ground arith;
  type_of = λ p h. ground arith;
  size_of = λ p h. ground arith;
  content_from = λ p i c h e. ground arith;
  content_to = λ p i c h. ground arith;
  entry_from = λ p i c j h. ground arith;
  entry_to = λ c j b h. ground arith;
  unused_from = λ c m. ground (arith, unused_below 4095 1 c m);
  unused_to = λ c h l. unused_above 4095 1 c (ground arith) (ground arith);
  unused_once = unused_once 4095 1;
}

pub formatted-IsSound : IsSound memory formatted
formatted-IsSound = (first_roles, formatted-Inv)
