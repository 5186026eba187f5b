-- ===== src/Parsing/Throws.antt =====
-- parsing.cpp: headers on which std::out_of_range leaves parse_request.
use os_from_scratch.Common.{◌≤◌, ◌≡◌, [], ◌∷◌, ◌++◌, Bytes, length, arith}
use os_from_scratch.Params.{fs_maxusername}
use os_from_scratch.Parsing.Split.{split-append, Without}
use os_from_scratch.Parsing.{thrown, parse_tokens, parse_request}

-- Two spaces behind the user name make the path's token empty, and tokens[2].at(0) throws. This
-- is so for every command and every rest of the header, if the user name is not too long.
pub parse_request_empty_path :
    (cmd username rest : Bytes)
    → Without b' ' cmd
    → Without b' ' username
    → length username ≤ fs_maxusername
    → parse_request (cmd ++ b' ' ∷ (username ++ b' ' ∷ (b' ' ∷ rest))) ≡ thrown
unfolding parse_request parse_tokens
parse_request_empty_path cmd username rest c u l =
    rw
      (
        split-append b' ' cmd (username ++ b' ' ∷ (b' ' ∷ rest)) c,
        split-append b' ' username (b' ' ∷ rest) u,
        split-append b' ' [] rest tt,
      )
      (ground arith)
