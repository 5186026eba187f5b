-- ===== src/Parsing/Bounds.antt =====
-- parsing.cpp: what an accepted request is known to be.
use os_from_scratch.Common.{
  ℕ, ◌≤◌, ◌≡◌, ◌⊎◌, inl, inr, List, [], ◌∷◌, Bytes, All, length, false, ltb, arith, Bool-cases,
}
use os_from_scratch.Params.{fs_maxfileblocks, fs_maxfilename, fs_maxusername}
use os_from_scratch.Request.{Request, FilePath, fs_readblock, fs_writeblock, fs_create, fs_delete}
use os_from_scratch.Parsing.Split.{split, split-Without, Without}
use os_from_scratch.Parsing.Number.{Stoul, value, invalid_argument, out_of_range, stoul}
use os_from_scratch.Parsing.{
  Parsed, accepted, rejected, thrown, too_long, u32, parse_number, parse_block, parse_command,
  parse_path, parse_tokens, parse_request,
}

-- A file or directory name: it fits a direntry and has no separator in it.
abbrev pub IsName : Bytes → Type 0
IsName name = (length name ≤ fs_maxfilename) × Without b'/' name

abbrev pub IsUser : Bytes → Type 0
IsUser username = length username ≤ fs_maxusername

-- The ranges of a request's fields.
abbrev pub Within : Request (Unit {0}) → Type 0
Within (fs_readblock username path block) =
    IsUser username × All IsName path × (block ≤ fs_maxfileblocks)
Within (fs_writeblock username path block x) =
    IsUser username × All IsName path × (block ≤ fs_maxfileblocks)
Within (fs_create username path type) =
    IsUser username × All IsName path × ((type ≡ b'f') ⊎ (type ≡ b'd'))
Within (fs_delete username path) = IsUser username × All IsName path

abbrev pub AllWithin : Parsed → Type 0
AllWithin (accepted r) = Within r
AllWithin rejected = Unit
AllWithin thrown = Unit

parse_number-AllWithin :
    (n : Stoul) (make : ℕ → Request (Unit {0}))
    → ((block : ℕ) → block ≤ fs_maxfileblocks → Within (make block))
    → AllWithin (parse_number n make)
unfolding parse_number
parse_number-AllWithin invalid_argument make h = tt
parse_number-AllWithin out_of_range make h = tt
parse_number-AllWithin (value n) make h = elim (Bool-cases (ltb fs_maxfileblocks (u32 n))) [
  | inl big ↦ rw big tt
  | inr small ↦ rw small (h (u32 n) (ground arith))
]

parse_block-AllWithin :
    (arg : Bytes) (make : ℕ → Request (Unit {0}))
    → ((block : ℕ) → block ≤ fs_maxfileblocks → Within (make block))
    → AllWithin (parse_block arg make)
unfolding parse_block
parse_block-AllWithin [] make h = tt
parse_block-AllWithin (c ∷ cs) make h =
    ground (arith, parse_number-AllWithin (stoul (c ∷ cs)) make h)

parse_command-AllWithin :
    (cmd username : Bytes) (path : FilePath) (args : List Bytes)
    → IsUser username
    → All IsName path
    → AllWithin (parse_command cmd username path args)
unfolding parse_command
parse_command-AllWithin cmd username path [] u p = ground arith
parse_command-AllWithin cmd username path (arg ∷ []) u p = ground (
  arith,
  parse_block-AllWithin arg (fs_readblock username path) (λ block h. (u, p, h)),
  parse_block-AllWithin arg (λ block. fs_writeblock username path block tt) (λ block h. (u, p, h)),
)
parse_command-AllWithin cmd username path (arg ∷ arg' ∷ args) u p = tt

too_long_names :
    (names : List Bytes)
    → too_long fs_maxfilename names ≡ false
    → All (Without b'/') names
    → All IsName names
unfolding too_long
too_long_names [] h w = tt
too_long_names (name ∷ names) h w = ((ground arith, w.0), too_long_names names (ground arith) w.1)

parse_path-AllWithin :
    (cmd username token : Bytes) (args : List Bytes)
    → IsUser username
    → AllWithin (parse_path cmd username token args)
unfolding parse_path
parse_path-AllWithin cmd username [] args u = tt
parse_path-AllWithin cmd username (c ∷ cs) args u =
    elim (Bool-cases (too_long fs_maxfilename (split b'/' cs))) [
      | inl long ↦ ground arith
      | inr short ↦ ground (
        arith,
        parse_command-AllWithin cmd username (split b'/' cs) args u
            (too_long_names (split b'/' cs) short (split-Without b'/' cs)),
      )
    ]

parse_tokens-AllWithin : (tokens : List Bytes) → AllWithin (parse_tokens tokens)
unfolding parse_tokens
parse_tokens-AllWithin [] = tt
parse_tokens-AllWithin (cmd ∷ []) = tt
parse_tokens-AllWithin (cmd ∷ username ∷ []) = tt
parse_tokens-AllWithin (cmd ∷ username ∷ path ∷ args) =
    elim (Bool-cases (ltb fs_maxusername (length username))) [
      | inl long ↦ rw long tt
      | inr short ↦ rw short (parse_path-AllWithin cmd username path args (ground arith))
    ]

-- A request that is accepted has a user name of at most 10 bytes, file names of at most 59 bytes
-- with no '/' in them, a block number of at most 124, and the type 'f' or 'd'.
pub parse_request-Within :
    (msg : Bytes) {r : Request (Unit {0})} → parse_request msg ≡ accepted r → Within r
unfolding parse_request
parse_request-Within msg h = rw h at (parse_tokens-AllWithin (split b' ' msg))
