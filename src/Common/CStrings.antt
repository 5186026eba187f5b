-- ===== src/Common/CStrings.antt =====
-- Byte strings as lists of codes, and the C library's strcmp and strcpy on char arrays.
use Prim.Native.Nat.{ℕ, ◌+◌, ◌<◌}
use Prim.Native.Char.{code}
use Prim.Native.String.{String}
use mathlib.Core.Path.{◌≡◌, refl}
use mathlib.Core.Logic.{◌≢◌}
use mathlib.Core.Bool.{Bool, true, false, ◌&&◌}
use mathlib.Core.List.{List, [], ◌∷◌, ◌++◌}
use native.Mathlib.Omega.{arith}
use os_from_scratch.Common.Tests.{◌==◌, if◌then◌else◌}
use os_from_scratch.Common.Lists.{length, drop, length-append, length-drop, All}

abbrev pub Bytes : Type 0
Bytes = List ℕ

-- The bytes of an ASCII text.
abbrev pub codes : String → Bytes
codes String.[] = []
codes (String.◌∷◌ c s) = code c ∷ codes s

unfoldable pub bytes_eq : Bytes → Bytes → Bool
bytes_eq [] [] = true
bytes_eq [] (y ∷ ys) = false
bytes_eq (x ∷ xs) [] = false
bytes_eq (x ∷ xs) (y ∷ ys) = x == y && bytes_eq xs ys

pub bytes_eq→≡ : (xs ys : Bytes) → bytes_eq xs ys ≡ true → xs ≡ ys
unfolding bytes_eq
bytes_eq→≡ [] [] h = refl
bytes_eq→≡ [] (y ∷ ys) h = absurd (cc)
bytes_eq→≡ (x ∷ xs) [] h = absurd (cc)
bytes_eq→≡ (x ∷ xs) (y ∷ ys) h = ground (arith, bytes_eq→≡ xs ys)

pub bytes_eq_refl : (xs : Bytes) → bytes_eq xs xs ≡ true
unfolding bytes_eq
bytes_eq_refl [] = refl
bytes_eq_refl (x ∷ xs) = ground (arith, bytes_eq_refl xs)

-- The C string at the start of a char array: the bytes before the first NUL.
unfoldable pub c_str : Bytes → Bytes
c_str [] = []
c_str (x ∷ xs) = let rest = c_str xs in if x == 0 then [] else x ∷ rest

-- strcpy(dst, s): `s` and its NUL are written, and what stands behind them is kept.
unfoldable pub strcpy : Bytes → Bytes → Bytes
strcpy dst s = s ++ 0 ∷ drop (length s + 1) dst

-- strcmp(s, buf) == 0 for a std::string `s` with no NUL in it and a char array.
unfoldable pub same_name : Bytes → Bytes → Bool
same_name s buf = bytes_eq s (c_str buf)

abbrev pub NoNul : Bytes → Type 0
NoNul = All (λ b. b ≢ 0)

pub c_str-append : (s rest : Bytes) → NoNul s → c_str (s ++ 0 ∷ rest) ≡ s
unfolding c_str
c_str-append [] rest h = refl
c_str-append (x ∷ s) rest h = ground (arith, c_str-append s rest)

pub same_name-strcpy : (dst s : Bytes) → NoNul s → same_name s (strcpy dst s) ≡ true
unfolding same_name strcpy
same_name-strcpy dst s h = rw (c_str-append s (drop (length s + 1) dst) h) (bytes_eq_refl s)

-- With room for the NUL, the array keeps its length.
pub length-strcpy : (dst s : Bytes) → length s < length dst → length (strcpy dst s) ≡ length dst
unfolding strcpy
length-strcpy dst s h =
    omega (arith, length-append s (0 ∷ drop (length s + 1) dst), length-drop (length s + 1) dst)
