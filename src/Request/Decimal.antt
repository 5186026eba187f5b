-- ===== src/Request/Decimal.antt =====
-- std::to_string of an unsigned number.
use os_from_scratch.Common.{ℕ, zero, suc, ◌+◌, ◌/◌, ◌%◌, [], ◌∷◌, Bytes, ltb, if◌then◌else◌}

-- The digits of `n` before `acc`, with fuel above the number of digits.
unfoldable pub digits_onto : ℕ → ℕ → Bytes → Bytes
digits_onto zero n acc = acc
digits_onto (suc f) n acc =
    let rest = digits_onto f (n / 10) ((b'0' + n % 10) ∷ acc) in
    if ltb n 10 then (b'0' + n) ∷ acc else rest

unfoldable pub to_string : ℕ → Bytes
unfolding digits_onto
to_string n = digits_onto (n + 1) n []
