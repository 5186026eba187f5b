-- ===== src/Parsing/RoundTrip.antt =====
-- request.h and parsing.cpp: the text of a request, parsed.
use os_from_scratch.Common.{
  ℕ, ◌<◌, ◌≤◌, ◌≡◌, ◌⊎◌, inl, inr, refl, ap, ◌∙◌, Bool, true, false, not, ◌&&◌, List, [], ◌∷◌, ◌++◌,
  Bytes, codes, ◌==◌, All, length, arith, append_assoc, append-nil, bytes_eq, all_below,
  all_below_sound, &&_split,
}
use os_from_scratch.Params.{fs_maxfileblocks, fs_maxfilename, fs_maxpathname}
use os_from_scratch.Request.{
  Request, FilePath, fs_readblock, fs_writeblock, fs_create, fs_delete, path_to_string,
  request_string,
}
use os_from_scratch.Request.Decimal.{to_string}
use os_from_scratch.Parsing.Split.{split, split-append, split_last, Without}
use os_from_scratch.Parsing.Number.{Stoul, value, invalid_argument, out_of_range, stoul}
use os_from_scratch.Parsing.Bounds.{IsName, IsUser}
use os_from_scratch.Parsing.{
  accepted, too_long, ends_with, u32, parse_block, parse_command, parse_path, parse_tokens,
  parse_request,
}

-- A number's text, as the tests of parse_block want it.
has_value : ℕ → Stoul → Bool
has_value n (value m) = m == n
has_value n invalid_argument = false
has_value n out_of_range = false

no_space : Bytes → Bool
no_space [] = true
no_space (c ∷ cs) = not (c == b' ') && no_space cs

good_text : ℕ → Bytes → Bool
unfolding has_value no_space stoul
good_text n [] = false
good_text n (c ∷ cs) =
    not (c == b'0' && not (length (c ∷ cs) == 1))
    && has_value n (stoul (c ∷ cs))
    && no_space (c ∷ cs)

small_numbers : all_below 125 (λ n. good_text n (to_string n)) ≡ true
unfolding all_below good_text to_string
small_numbers = refl

good_text_small : (n : ℕ) → n ≤ fs_maxfileblocks → good_text n (to_string n) ≡ true
good_text_small n h =
    all_below_sound 125 (λ k. good_text k (to_string k)) n small_numbers (omega arith)

no_space-Without : (cs : Bytes) → no_space cs ≡ true → Without b' ' cs
unfolding no_space
no_space-Without [] h = tt
no_space-Without (c ∷ cs) h =
    let (p, q) = &&_split (not (c == b' ')) (no_space cs) h in (ground arith, no_space-Without cs q)

-- What a number's text is for the two functions that read it.
abbrev ReadsAs : ℕ → Bytes → Type 0
ReadsAs n [] = ⊥
ReadsAs n (c ∷ cs) =
    ((c == b'0' && not (length (c ∷ cs) == 1)) ≡ false)
    × (stoul (c ∷ cs) ≡ value n)
    × Without b' ' (c ∷ cs)

good_text-ReadsAs : (n : ℕ) (text : Bytes) → good_text n text ≡ true → ReadsAs n text
unfolding good_text
good_text-ReadsAs n [] h = absurd (cc)
good_text-ReadsAs n (c ∷ cs) h =
    let (z, v, w) =
      &&_parts (not (c == b'0' && not (length (c ∷ cs) == 1))) (has_value n (stoul (c ∷ cs)))
        (no_space (c ∷ cs)) h in
    (ground arith, value_is (stoul (c ∷ cs)) v, no_space-Without (c ∷ cs) w)
  where
    &&_parts : (a b d : Bool) → (a && b && d) ≡ true → (a ≡ true) × (b ≡ true) × (d ≡ true)
    &&_parts a b d k = ground arith

    value_is : (r : Stoul) → has_value n r ≡ true → r ≡ value n
    value_is (value m) k = ground arith
    value_is invalid_argument k = absurd (cc)
    value_is out_of_range k = absurd (cc)

ReadsAs-small : (n : ℕ) → n ≤ fs_maxfileblocks → ReadsAs n (to_string n)
ReadsAs-small n h = good_text-ReadsAs n (to_string n) (good_text_small n h)

parse_block_text :
    (n : ℕ) (text : Bytes) (make : ℕ → Request (Unit {0}))
    → n ≤ fs_maxfileblocks
    → ReadsAs n text
    → parse_block text make ≡ accepted (make n)
unfolding parse_block
parse_block_text n [] make h r = absurd r
parse_block_text n (c ∷ cs) make h (z, v, w) =
    let small : u32 n ≡ n = omega arith in rw z (rw v (rw small (ground arith)))

-- A path as a request prints it: not the root, the last name not empty, at most 128 bytes in all.
abbrev LastNotEmpty : FilePath → Type 0
LastNotEmpty [] = ⊥
LastNotEmpty (name ∷ []) = 0 < length name
LastNotEmpty (name ∷ next ∷ path) = LastNotEmpty (next ∷ path)

pub record IsPlain (path : FilePath) : Type 0 where
  pub names : All (λ name. IsName name × Without b' ' name) path
  pub last : LastNotEmpty path
  pub short : length (path_to_string path) ≤ fs_maxpathname

split_path :
    (name : Bytes) (path : FilePath)
    → All (λ n. IsName n × Without b' ' n) (name ∷ path)
    → LastNotEmpty (name ∷ path)
    → split b'/' (name ++ path_to_string path) ≡ name ∷ path
unfolding path_to_string
split_path [] [] h l = absurd (omega arith)
split_path (c ∷ cs) [] h l = rw append-nil (split_last b'/' c cs h.0.0.1)
split_path name (next ∷ path) h l =
    rw (split-append b'/' name (next ++ path_to_string path) h.0.0.1)
      (ap (◌∷◌ name) (split_path next path h.1 l))

ends_with-append : (c x : ℕ) (xs ys : Bytes) → ends_with c (xs ++ x ∷ ys) ≡ ends_with c (x ∷ ys)
unfolding ends_with
ends_with-append c x [] ys = refl
ends_with-append c x (y ∷ []) ys = refl
ends_with-append c x (y ∷ z ∷ xs) ys = ends_with-append c x (z ∷ xs) ys

ends_with-Without : (c x : ℕ) (xs : Bytes) → Without c (x ∷ xs) → ends_with c (x ∷ xs) ≡ false
unfolding ends_with
ends_with-Without c x [] h = ground arith
ends_with-Without c x (y ∷ xs) h = ends_with-Without c y xs h.1

ends_with-path :
    (name : Bytes) (path : FilePath)
    → All (λ n. IsName n × Without b' ' n) (name ∷ path)
    → LastNotEmpty (name ∷ path)
    → ends_with b'/' (b'/' ∷ name ++ path_to_string path) ≡ false
unfolding path_to_string
ends_with-path [] [] h l = absurd (omega arith)
ends_with-path (c ∷ cs) [] h l =
    rw append-nil (ends_with-append b'/' c (b'/' ∷ []) cs ∙ ends_with-Without b'/' c cs h.0.0.1)
ends_with-path name (next ∷ path) h l =
    ends_with-append b'/' b'/' (b'/' ∷ name) (next ++ path_to_string path)
    ∙ ends_with-path next path h.1 l

too_long_names :
    (path : FilePath)
    → All (λ n. IsName n × Without b' ' n) path
    → too_long fs_maxfilename path ≡ false
unfolding too_long
too_long_names [] h = refl
too_long_names (name ∷ path) h = ground (arith, too_long_names path h.1)

path-Without :
    (path : FilePath)
    → All (λ n. IsName n × Without b' ' n) path
    → Without b' ' (path_to_string path)
unfolding path_to_string
path-Without [] h = tt
path-Without (name ∷ path) h =
    (λ e. absurd (omega arith), go name (path_to_string path) h.0.1 (path-Without path h.1))
  where
    go : (xs ys : Bytes) → Without b' ' xs → Without b' ' ys → Without b' ' (xs ++ ys)
    go [] ys a b = b
    go (x ∷ xs) ys a b = (a.0, go xs ys a.1 b)

parse_path_plain :
    (cmd username : Bytes) (path : FilePath) (args : List Bytes)
    → IsPlain path
    → parse_path cmd username (path_to_string path) args ≡ parse_command cmd username path args
unfolding parse_path path_to_string
parse_path_plain cmd username [] args p = absurd p.last
parse_path_plain cmd username (name ∷ path) args p =
    rw
      (
        ends_with-path name path p.names p.last,
        split_path name path p.names p.last,
        too_long_names (name ∷ path) p.names,
      )
      (ground (arith, p.short))

-- The tokens of a header with an argument behind the path, and of one without.
split_four :
    (cmd username token arg : Bytes)
    → Without b' ' cmd
    → Without b' ' username
    → Without b' ' token
    → split b' ' arg ≡ arg ∷ []
    → split b' ' (cmd ++ b' ' ∷ [] ++ username ++ b' ' ∷ token ++ b' ' ∷ arg)
      ≡ cmd ∷ username ∷ token ∷ arg ∷ []
split_four cmd username token arg c u t a = simp append_assoc (
    rw (
      split-append b' ' cmd (username ++ b' ' ∷ (token ++ b' ' ∷ arg)) c,
      split-append b' ' username (token ++ b' ' ∷ arg) u,
      split-append b' ' token arg t,
      a,
    ))

split_three :
    (cmd username token : Bytes)
    → Without b' ' cmd
    → Without b' ' username
    → split b' ' token ≡ token ∷ []
    → split b' ' (cmd ++ b' ' ∷ [] ++ username ++ b' ' ∷ token) ≡ cmd ∷ username ∷ token ∷ []
split_three cmd username token h u t =
    simp append_assoc (
      rw
        (split-append b' ' cmd (username ++ b' ' ∷ token) h, split-append b' ' username token u, t))

split_text : (n : ℕ) (text : Bytes) → ReadsAs n text → split b' ' text ≡ text ∷ []
split_text n [] h = absurd h
split_text n (c ∷ cs) h = split_last b' ' c cs h.2

split_plain :
    (path : FilePath) → IsPlain path → split b' ' (path_to_string path) ≡ path_to_string path ∷ []
unfolding path_to_string
split_plain [] p = absurd p.last
split_plain (name ∷ path) p =
    split_last b' ' b'/' (name ++ path_to_string path) (path-Without (name ∷ path) p.names)

-- A request that its own text can stand for.
abbrev pub IsPrintable : Request (Unit {0}) → Type 0
IsPrintable (fs_readblock username path block) =
    IsUser username × Without b' ' username × IsPlain path × (block ≤ fs_maxfileblocks)
IsPrintable (fs_writeblock username path block x) =
    IsUser username × Without b' ' username × IsPlain path × (block ≤ fs_maxfileblocks)
IsPrintable (fs_create username path type) =
    IsUser username × Without b' ' username × IsPlain path × ((type ≡ b'f') ⊎ (type ≡ b'd'))
IsPrintable (fs_delete username path) = IsUser username × Without b' ' username × IsPlain path

parse_four :
    (cmd username arg : Bytes) (path : FilePath)
    → Without b' ' cmd
    → IsUser username
    → Without b' ' username
    → IsPlain path
    → split b' ' arg ≡ arg ∷ []
    → parse_request (cmd ++ b' ' ∷ [] ++ username ++ b' ' ∷ path_to_string path ++ b' ' ∷ arg)
      ≡ parse_command cmd username path (arg ∷ [])
unfolding parse_request parse_tokens
parse_four cmd username arg path c u w p a =
    rw (split_four cmd username (path_to_string path) arg c w (path-Without path p.names) a)
      (ground (arith, parse_path_plain cmd username path (arg ∷ []) p))

parse_three :
    (cmd username : Bytes) (path : FilePath)
    → Without b' ' cmd
    → IsUser username
    → Without b' ' username
    → IsPlain path
    → parse_request (cmd ++ b' ' ∷ [] ++ username ++ b' ' ∷ path_to_string path)
      ≡ parse_command cmd username path []
unfolding parse_request parse_tokens
parse_three cmd username path c u w p =
    rw (split_three cmd username (path_to_string path) c w (split_plain path p))
      (ground (arith, parse_path_plain cmd username path [] p))

-- The text that a response begins with is the text of the request: parsed, it gives the request
-- back. The user name and the names have no space, the path is not the root, its last name is not
-- empty, and all fields are in range.
pub parse_request-request_string :
    (r : Request (Unit {0})) → IsPrintable r → parse_request (request_string r) ≡ accepted r
unfolding request_string parse_command bytes_eq
parse_request-request_string (fs_readblock username path block) (u, w, p, b) =
    let h = ReadsAs-small block b in
    parse_four (codes "FS_READBLOCK") username (to_string block) path (omega arith) u w p
      (split_text block (to_string block) h)
    ∙ parse_block_text block (to_string block) (fs_readblock username path) b h
parse_request-request_string (fs_writeblock username path block tt) (u, w, p, b) =
    let h = ReadsAs-small block b in
    parse_four (codes "FS_WRITEBLOCK") username (to_string block) path (omega arith) u w p
      (split_text block (to_string block) h)
    ∙ parse_block_text block (to_string block) (λ k. fs_writeblock username path k tt) b h
parse_request-request_string (fs_create username path type) (u, w, p, t) = elim t [
  | inl f ↦ rw f (
      parse_four (codes "FS_CREATE") username (codes "f") path (omega arith) u w p
        (split_last b' ' b'f' [] (omega arith)))
  | inr d ↦ rw d (
      parse_four (codes "FS_CREATE") username (codes "d") path (omega arith) u w p
        (split_last b' ' b'd' [] (omega arith)))
]
parse_request-request_string (fs_delete username path) (u, w, p) =
    parse_three (codes "FS_DELETE") username path (omega arith) u w p
