-- ===== src/Parsing/Number.antt =====
-- std::stoul in base 10, as the C++ library documents it: white space, a sign, and the longest run
-- of digits. The result is an unsigned long of 64 bits; a minus sign negates it modulo 2^64.
use os_from_scratch.Common.{
  ℕ, ◌+◌, ◌-◌, ◌*◌, ◌%◌, ◌^◌, Bool, true, false, ◌&&◌, ◌||◌, [], ◌∷◌, Option, none, some, Bytes,
  ◌==◌, leb, if◌then◌else◌,
}

pub data Stoul : Type 0 where
  value : ℕ → Stoul
  invalid_argument out_of_range : Stoul

is_digit : ℕ → Bool
is_digit c = leb b'0' c && leb c b'9'

is_space : ℕ → Bool
is_space c = c == b' ' || (leb 9 c && leb c 13)

-- The digits at the front, added to the number read before them.
unfoldable pub read_digits : ℕ → Bytes → ℕ
unfolding is_digit
read_digits n [] = n
read_digits n (c ∷ cs) =
    let rest = read_digits (n * 10 + (c - b'0')) cs in if is_digit c then rest else n

-- The number behind the sign; `none` if there is no digit.
unsigned : Bytes → Option ℕ
unfolding is_digit read_digits
unsigned [] = none
unsigned (c ∷ cs) = if is_digit c then some (read_digits 0 (c ∷ cs)) else none

to_result : Bool → Option ℕ → Stoul
to_result negative none = invalid_argument
to_result negative (some n) =
    if leb (2 ^ 64) n then out_of_range else value (if negative then (2 ^ 64 - n) % 2 ^ 64 else n)

unfoldable pub stoul : Bytes → Stoul
unfolding is_space unsigned to_result
stoul [] = invalid_argument
stoul (c ∷ cs) =
    let rest = stoul cs in
    if is_space c
    then rest
    else if c == b'-'
    then to_result true (unsigned cs)
    else if c == b'+'
    then to_result false (unsigned cs)
    else to_result false (unsigned (c ∷ cs))
