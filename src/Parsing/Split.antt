-- ===== src/Parsing/Split.antt =====
-- parsing.cpp, split: the tokens between delimiters, as getline reads them. A delimiter at the end
-- makes no empty token behind it.
use os_from_scratch.Common.{
  ℕ, ◌≡◌, ◌≢◌, inl, inr, Bool-cases, List, [], ◌∷◌, ◌++◌, Bytes, ◌==◌, if◌then◌else◌, All, arith,
}

-- A byte before the first of the tokens that follow.
unfoldable pub onto_first : ℕ → List Bytes → List Bytes
onto_first c [] = (c ∷ []) ∷ []
onto_first c (token ∷ tokens) = (c ∷ token) ∷ tokens

unfoldable pub split : ℕ → Bytes → List Bytes
unfolding onto_first
split delimiter [] = []
split delimiter (c ∷ cs) =
    let rest = split delimiter cs in if c == delimiter then [] ∷ rest else onto_first c rest

-- The delimiter is not in the text.
abbrev pub Without : ℕ → Bytes → Type 0
Without delimiter = All (λ c. c ≢ delimiter)

-- A token and its delimiter are read off.
pub split-append :
    (delimiter : ℕ) (token rest : Bytes)
    → Without delimiter token
    → split delimiter (token ++ delimiter ∷ rest) ≡ token ∷ split delimiter rest
unfolding split
split-append delimiter [] rest h = ground arith
split-append delimiter (c ∷ cs) rest h = ground (arith, split-append delimiter cs rest h.1)

-- The last token has no delimiter, and is not empty.
pub split_last :
    (delimiter c : ℕ) (cs : Bytes)
    → Without delimiter (c ∷ cs)
    → split delimiter (c ∷ cs) ≡ (c ∷ cs) ∷ []
unfolding split
split_last delimiter c [] h = ground arith
split_last delimiter c (c' ∷ cs) h = ground (arith, split_last delimiter c' cs h.1)

onto_first-Without :
    (delimiter c : ℕ) (tokens : List Bytes)
    → c ≢ delimiter
    → All (Without delimiter) tokens
    → All (Without delimiter) (onto_first c tokens)
unfolding onto_first
onto_first-Without delimiter c [] h k = ((h, tt), tt)
onto_first-Without delimiter c (token ∷ tokens) h k = ((h, k.0), k.1)

-- No token holds the delimiter.
pub split-Without : (delimiter : ℕ) (msg : Bytes) → All (Without delimiter) (split delimiter msg)
unfolding split
split-Without delimiter [] = tt
split-Without delimiter (c ∷ cs) = elim (Bool-cases (c == delimiter)) [
  | inl y ↦ rw y (tt, split-Without delimiter cs)
  | inr n ↦ rw n (
      onto_first-Without delimiter c (split delimiter cs) (ground arith)
        (split-Without delimiter cs))
]
