-- ===== src/Networking/Safety.antt =====
-- networking.cpp: what a client can do to the file system by the bytes that it sends.
use os_from_scratch.Common.{
  ◌≤◌, ◌≡◌, inl, inr, refl, List, [], ◌∷◌, Option, none, some, All, length, Bytes, arith,
  Option-cases,
}
use os_from_scratch.Params.{fs_maxfilename}
use os_from_scratch.Disk.{Device, Inode, IsInode, Store}
use os_from_scratch.Request.{Request, FilePath, fs_readblock, fs_writeblock, fs_create, fs_delete}
use os_from_scratch.Parsing.{Parsed, accepted, rejected, thrown, parse_request}
use os_from_scratch.Parsing.Bounds.{IsName, Within, parse_request-Within}
use os_from_scratch.FileSystem.Create.{back}
use os_from_scratch.FileSystem.Errors.{execute_request_error}
use os_from_scratch.FileSystem.Invariant.{IsSound}
use os_from_scratch.FileSystem.Sound.{Fits, execute_request-IsSound}
use os_from_scratch.FileSystem.{execute_request}
use os_from_scratch.Networking.{
  Recv, Header, message, dropped, read_header, receive_data, respond, handle_parsed, handle_header,
  handle_connection,
}

back_short : (path : FilePath) → All IsName path → length (back path) ≤ fs_maxfilename
unfolding back
back_short [] h = omega arith
back_short (name ∷ []) h = h.0.0
back_short (name ∷ next ∷ path) h = back_short (next ∷ path) h.1

module _ (dev : Device) where
  open dev use {Block, Disk}

  -- The parser's bounds are what the file system needs.
  receive_data-Fits :
      (r : Request (Unit {0})) (received : Option Block) {r' : Request Block}
      → Within r
      → receive_data dev r received ≡ some r'
      → Fits r'
  unfolding receive_data
  receive_data-Fits (fs_readblock username path k) received w h = ground arith
  receive_data-Fits (fs_writeblock username path k _) none w h = absurd (cc)
  receive_data-Fits (fs_writeblock username path k _) (some x) w h = ground arith
  receive_data-Fits (fs_create username path type) received w h =
      ground (arith, back_short path w.1)
  receive_data-Fits (fs_delete username path) received w h = ground arith

  module _ (s : Store Disk) (junk : Inode) (shape : IsInode junk) (sound : IsSound dev s) where
    handle_parsed-IsSound :
        (msg : Bytes) (received : Option Block) (p : Parsed)
        → parse_request msg ≡ p
        → IsSound dev (handle_parsed dev s junk received p).store
    unfolding handle_parsed
    handle_parsed-IsSound msg received rejected e = sound
    handle_parsed-IsSound msg received thrown e = sound
    handle_parsed-IsSound msg received (accepted r) e =
        elim (Option-cases (receive_data dev r received)) [
          | inl n ↦ rw n sound
          | inr (r', q) ↦ rw q (
              execute_request-IsSound dev s junk r' shape
                (receive_data-Fits r received (parse_request-Within msg e) q) sound)
        ]

    -- Whatever bytes a client sends to a sound file system, complete or not, it is sound afterwards:
    -- the parser lets no request through that the file system could not store. The arrays in a new
    -- inode's storage have their lengths.
    pub handle_connection-IsSound :
        (stream : List Recv) (received : Option Block)
        → IsSound dev (handle_connection dev s junk stream received).store
    unfolding handle_connection
    handle_connection-IsSound stream received = header (read_header 0 [] stream)
      where
        header : (h : Header) → IsSound dev (handle_header dev s junk received h).store
        header (message msg) = handle_parsed-IsSound msg received (parse_request msg) refl
        header dropped = sound

  -- If the handler makes no call of send, the store is as it was, whatever the client sent. The
  -- results of send are ignored: that a reply was handed to send does not say that it arrived.
  pub handle_connection_silent :
      (s : Store Disk) (junk : Inode) (stream : List Recv) (received : Option Block)
      → (handle_connection dev s junk stream received).sent ≡ []
      → (handle_connection dev s junk stream received).store ≡ s
  unfolding handle_connection
  handle_connection_silent s junk stream received = header (read_header 0 [] stream)
    where
      executed :
          (r : Request Block)
          → (respond dev s junk (some r)).sent ≡ []
          → (respond dev s junk (some r)).store ≡ s
      executed r h = elim (Option-cases (execute_request dev s junk r).1) [
        | inl e ↦ execute_request_error dev s junk r e
        | inr (x, e) ↦ absurd (ground arith)
      ]

      responded :
          (r : Option (Request Block))
          → (respond dev s junk r).sent ≡ []
          → (respond dev s junk r).store ≡ s
      responded none h = refl
      responded (some r) h = executed r h

      parsed :
          (p : Parsed)
          → (handle_parsed dev s junk received p).sent ≡ []
          → (handle_parsed dev s junk received p).store ≡ s
      parsed (accepted r) h = responded (receive_data dev r received) h
      parsed rejected h = refl
      parsed thrown h = refl

      header :
          (h : Header)
          → (handle_header dev s junk received h).sent ≡ []
          → (handle_header dev s junk received h).store ≡ s
      header (message msg) h = parsed (parse_request msg) h
      header dropped h = refl
