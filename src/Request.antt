-- ===== src/Request.antt =====
-- request.h: the four requests, and the text that a response starts with.
use os_from_scratch.Common.{ℕ, List, [], ◌∷◌, ◌++◌, Bytes, codes}
use os_from_scratch.Request.Decimal.{to_string}
pub mod Decimal

-- `vector<string>`: the components of a path, outermost first.
abbrev pub FilePath : Type 0
FilePath = List Bytes

-- `D` is the type of the block of data that comes with a write: it is the unit type for the parser,
-- which leaves the pointer null, and a block once the data has been received.
pub data Request (D : Type 0) : Type 0 where
  fs_readblock : (username : Bytes) → (path : FilePath) → (block : ℕ) → Request D
  fs_writeblock :
      (username : Bytes) → (path : FilePath) → (block : ℕ) → (data_block : D) → Request D
  fs_create : (username : Bytes) → (path : FilePath) → (type : ℕ) → Request D
  fs_delete : (username : Bytes) → (path : FilePath) → Request D

unfoldable pub path_to_string : FilePath → Bytes
path_to_string [] = []
path_to_string (node ∷ path) = b'/' ∷ node ++ path_to_string path

unfoldable pub request_string : {D : Type 0} → Request D → Bytes
unfolding path_to_string
request_string (fs_readblock username path block) =
    codes "FS_READBLOCK " ++ username ++ b' ' ∷ path_to_string path ++ b' ' ∷ to_string block
request_string (fs_writeblock username path block _) =
    codes "FS_WRITEBLOCK " ++ username ++ b' ' ∷ path_to_string path ++ b' ' ∷ to_string block
request_string (fs_create username path type) =
    codes "FS_CREATE " ++ username ++ b' ' ∷ path_to_string path ++ b' ' ∷ type ∷ []
request_string (fs_delete username path) =
    codes "FS_DELETE " ++ username ++ b' ' ∷ path_to_string path
