-- ===== src/Parsing.antt =====
-- parsing.cpp: a header's text becomes a request.
pub mod Split
pub mod Number
pub mod Bounds
pub mod RoundTrip
pub mod Throws
use os_from_scratch.Common.{
  ℕ, ◌%◌, ◌^◌, Bool, true, false, not, ◌&&◌, ◌||◌, List, [], ◌∷◌, Bytes, codes, bytes_eq, ◌==◌, ltb,
  if◌then◌else◌, length,
}
use os_from_scratch.Params.{fs_maxfileblocks, fs_maxfilename, fs_maxpathname, fs_maxusername}
use os_from_scratch.Request.{Request, FilePath, fs_readblock, fs_writeblock, fs_create, fs_delete}
use os_from_scratch.Parsing.Split.{split}
use os_from_scratch.Parsing.Number.{Stoul, value, invalid_argument, out_of_range, stoul}

-- `optional<Request>`, or an std::out_of_range that leaves parse_request. A write has no data yet.
pub data Parsed : Type 0 where
  accepted : Request (Unit {0}) → Parsed
  rejected thrown : Parsed

-- The bytes of a uint32_t.
abbrev pub u32 : ℕ → ℕ
u32 n = n % 2 ^ 32

unfoldable pub too_long : ℕ → List Bytes → Bool
too_long limit [] = false
too_long limit (name ∷ names) = ltb limit (length name) || too_long limit names

-- str.back() == c, on a string that is not empty.
unfoldable pub ends_with : ℕ → Bytes → Bool
ends_with c [] = false
ends_with c (x ∷ []) = x == c
ends_with c (x ∷ y ∷ xs) = ends_with c (y ∷ xs)

-- The block number: no sign of a leading 0, then std::stoul and the bound.
unfoldable pub parse_number : Stoul → (ℕ → Request (Unit {0})) → Parsed
parse_number invalid_argument make = rejected
parse_number out_of_range make = thrown
parse_number (value n) make =
    if ltb fs_maxfileblocks (u32 n) then rejected else accepted (make (u32 n))

-- tokens[3].at(0) throws on an empty token.
unfoldable pub parse_block : Bytes → (ℕ → Request (Unit {0})) → Parsed
unfolding parse_number
parse_block [] make = thrown
parse_block (c ∷ cs) make =
    if c == b'0' && not (length (c ∷ cs) == 1) then rejected else parse_number (stoul (c ∷ cs)) make

-- The commands, by the number of tokens behind the path.
unfoldable pub parse_command : Bytes → Bytes → FilePath → List Bytes → Parsed
unfolding parse_block
parse_command cmd username path [] =
    if bytes_eq cmd (codes "FS_DELETE") then accepted (fs_delete username path) else rejected
parse_command cmd username path (arg ∷ []) =
    if bytes_eq cmd (codes "FS_READBLOCK")
    then parse_block arg (fs_readblock username path)
    else if bytes_eq cmd (codes "FS_WRITEBLOCK")
    then parse_block arg (λ block. fs_writeblock username path block tt)
    else if bytes_eq cmd (codes "FS_CREATE")
    then if bytes_eq arg (codes "f")
      then accepted (fs_create username path b'f')
      else if bytes_eq arg (codes "d")
      then accepted (fs_create username path b'd')
      else rejected
    else rejected
parse_command cmd username path (arg ∷ arg' ∷ args) = rejected

-- The path's token, which at(0) reads: it begins with '/' and ends with none unless it is "/".
unfoldable pub parse_path : Bytes → Bytes → Bytes → List Bytes → Parsed
unfolding too_long ends_with parse_command
parse_path cmd username [] args = thrown
parse_path cmd username (c ∷ cs) args =
    if not (c == b'/') || (ends_with b'/' (c ∷ cs) && not (length (c ∷ cs) == 1))
    then rejected
    else if ltb fs_maxpathname (length (c ∷ cs))
    then rejected
    else if too_long fs_maxfilename (split b'/' cs)
    then rejected
    else parse_command cmd username (split b'/' cs) args

unfoldable pub parse_tokens : List Bytes → Parsed
unfolding parse_path
parse_tokens (cmd ∷ username ∷ path ∷ args) =
    if ltb fs_maxusername (length username) then rejected else parse_path cmd username path args
parse_tokens _ = rejected

unfoldable pub parse_request : Bytes → Parsed
unfolding parse_tokens
parse_request msg = parse_tokens (split b' ' msg)
