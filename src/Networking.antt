-- ===== src/Networking.antt =====
-- networking.cpp, handle_connection: a connection's header is read and parsed, the request is run,
-- and the reply is sent. The sockets are the environment's: what recv gives is an argument.
pub mod Safety
use os_from_scratch.Common.{
  ℕ, zero, suc, ◌+◌, ◌<◌, Bool, true, false, List, [], ◌∷◌, ◌++◌, Option, none, some, Bytes, ◌==◌,
  ltb, if◌then◌else◌,
}
use os_from_scratch.Params.{fs_maxusername, fs_maxpathname}
use os_from_scratch.Disk.{Device, Inode, Store}
use os_from_scratch.Request.{
  Request, fs_readblock, fs_writeblock, fs_create, fs_delete, request_string,
}
use os_from_scratch.Parsing.{Parsed, accepted, rejected, thrown, parse_request}
use os_from_scratch.FileSystem.Blocks.{Outcome}
use os_from_scratch.FileSystem.{execute_request}

abbrev pub max_header_size : ℕ
max_header_size = 13 + 1 + fs_maxusername + 1 + fs_maxpathname + 1 + 3 + 1

-- What one call of recv for one byte gives: a byte, the end of the stream, or an error.
pub data Recv : Type 0 where
  byte : ℕ → Recv
  closed failed : Recv

-- The header as a C string, or a connection that is dropped.
pub data Header : Type 0 where
  message : Bytes → Header
  dropped : Header

-- The do-while loop, with the number of bytes received and those bytes. A stream that has no more
-- entries is at its end.
unfoldable pub read_header : ℕ → Bytes → List Recv → Header
read_header recvd msg [] = message msg
read_header recvd msg (failed ∷ _) = dropped
read_header recvd msg (closed ∷ _) = message msg
read_header recvd msg (byte b ∷ stream) =
    let rest = read_header (recvd + 1) (msg ++ b ∷ []) stream in
    if ltb max_header_size (recvd + 1) then dropped else if b == 0 then message msg else rest

module _ (dev : Device) where
  open dev use {Block, Disk}

  -- What is handed to send; the code ignores its results.
  pub data Sent : Type 0 where
    text : Bytes → Sent
    block : Block → Sent

  -- How the function ends: it returns 0 or -1, or an exception leaves it and ends the program.
  pub data Ending : Type 0 where
    returned_0 returned_error terminated : Ending

  pub record Result : Type 0 where
    pub store : Store Disk
    pub sent : List Sent
    pub ending : Ending

  -- The request with the data of a write received into it; `none` is an error of that recv.
  unfoldable pub receive_data : Request (Unit {0}) → Option Block → Option (Request Block)
  receive_data (fs_readblock username path k) received = some (fs_readblock username path k)
  receive_data (fs_writeblock username path k _) none = none
  receive_data (fs_writeblock username path k _) (some x) = some (fs_writeblock username path k x)
  receive_data (fs_create username path type) received = some (fs_create username path type)
  receive_data (fs_delete username path) received = some (fs_delete username path)

  -- The block that follows the text in the reply to a read.
  unfoldable pub data_sent : Request Block → Option Block → List Sent
  data_sent (fs_readblock username path k) (some x) = block x ∷ []
  data_sent _ _ = []

  unfoldable pub reply : Request Block → Outcome dev → List Sent
  unfolding data_sent
  reply r none = []
  reply r (some x) = text (request_string r ++ 0 ∷ []) ∷ data_sent r x

  unfoldable pub respond : Store Disk → Inode → Option (Request Block) → Result
  unfolding reply
  respond s junk none = record { store = s; sent = []; ending = returned_error }
  respond s junk (some r) =
      let (s', outcome) = execute_request dev s junk r in
      record { store = s'; sent = reply r outcome; ending = returned_0 }

  unfoldable pub handle_parsed : Store Disk → Inode → Option Block → Parsed → Result
  unfolding respond
  handle_parsed s junk received (accepted r) = respond s junk (receive_data r received)
  handle_parsed s junk received rejected = record { store = s; sent = []; ending = returned_0 }
  handle_parsed s junk received thrown = record { store = s; sent = []; ending = terminated }

  unfoldable pub handle_header : Store Disk → Inode → Option Block → Header → Result
  unfolding handle_parsed
  handle_header s junk received (message msg) = handle_parsed s junk received (parse_request msg)
  handle_header s junk received dropped = record { store = s; sent = []; ending = returned_error }

  -- `received` is what the recv of a block of data leaves in its array, `junk` what the storage of
  -- a new inode holds.
  unfoldable pub handle_connection : Store Disk → Inode → List Recv → Option Block → Result
  unfolding handle_header
  handle_connection s junk stream received = handle_header s junk received (read_header 0 [] stream)
