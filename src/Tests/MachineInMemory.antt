-- ===== src/Tests/MachineInMemory.antt =====
-- The files as a table, and runs of vm_pager.cpp on it.
use os_from_scratch.Common.{
  ℕ, zero, suc, ◌≡◌, ◌≢◌, ◌⊎◌, inl, inr, refl, ap, Bool, true, false, ◌&&◌, [], ◌∷◌, Option, none,
  some, Bytes, bytes_eq, bytes_eq→≡, ◌==◌, ==_ne, if◌then◌else◌, arith, Bool-cases,
}
use os_from_scratch.Pager.{Machine}

abbrev same_file : Option Bytes → Option Bytes → Bool
same_file none none = true
same_file none (some y) = false
same_file (some x) none = false
same_file (some x) (some y) = bytes_eq x y

bytes_eq_refl : (x : Bytes) → bytes_eq x x ≡ true
unfolding bytes_eq
bytes_eq_refl [] = refl
bytes_eq_refl (x ∷ xs) = ground (arith, bytes_eq_refl xs)

same_file_refl : (n : Option Bytes) → same_file n n ≡ true
same_file_refl none = refl
same_file_refl (some x) = bytes_eq_refl x

same_file→≡ : (n m : Option Bytes) → same_file n m ≡ true → n ≡ m
same_file→≡ none none h = refl
same_file→≡ none (some y) h = absurd (ground arith)
same_file→≡ (some x) none h = absurd (ground arith)
same_file→≡ (some x) (some y) h = ap some (bytes_eq→≡ x y h)

&&_false : (a : Bool) → (a && false) ≡ false
&&_false true = refl
&&_false false = refl

abbrev pub Table : Type 0
Table = Option Bytes → ℕ → Option Bytes

-- A write to a block that cannot be read is lost.
abbrev write_table : Table → Option Bytes → ℕ → Bytes → Table
write_table d n b x m c =
    if same_file n m && b == c then (elim (d m c) [ none ↦ none | some y ↦ some x ]) else d m c

unfoldable pub byte : Bytes → ℕ → ℕ
byte [] i = 0
byte (x ∷ xs) zero = x
byte (x ∷ xs) (suc i) = byte xs i

pub write_table_self :
    (d : Table) (n : Option Bytes) (b : ℕ) (x : Bytes) {y : Bytes}
    → d n b ≡ some y
    → write_table d n b x n b ≡ some x
unfolding bytes_eq
write_table_self d n b x e = ground (arith, same_file_refl n)

pub write_table_ne :
    (d : Table) (n m : Option Bytes) (b c : ℕ) (x : Bytes)
    → (n ≢ m) ⊎ (b ≢ c)
    → write_table d n b x m c ≡ d m c
unfolding bytes_eq
write_table_ne d n m b c x (inl h) = elim (Bool-cases (same_file n m)) [
  | inl e ↦ absurd (h (same_file→≡ n m e))
  | inr e ↦ rw e refl
]
write_table_ne d n m b c x (inr h) = rw (==_ne b c h, &&_false (same_file n m)) refl

-- The names "a" and "./a" are one file's.
abbrev plain : Option Bytes → Option Bytes
plain none = none
plain (some []) = some []
plain (some (x ∷ [])) = some (x ∷ [])
plain (some (x ∷ y ∷ xs)) = some (if x == b'.' && y == b'/' then xs else x ∷ y ∷ xs)

abbrev pub machine : Machine
machine = record {
  Page = Bytes;
  zero_page = [];
  byte_at = byte;
  Files = Table;
  File = Option Bytes;
  file_of = plain;
  file_read = λ d n b. d (plain n) b;
  file_write = λ d n. write_table d (plain n);
  read-write_self = λ d n. write_table_self d (plain n);
  read-write_ne = λ d n m. write_table_ne d (plain n) (plain m);
}
