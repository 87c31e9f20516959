-- ===== src/Registry/Sending.antt =====
-- `replyTarget`, `sendFrame` and `readLine` of internal/bridge/protocol.go.
use cross_session_codex.Common.{
  ℕ, ◌+◌, ◌≡◌, Bool, false, not, ◌&&◌, List, [], ◌∷◌, ◌++◌, Option, none, some, ltb, ◌==◌,
  if◌then◌else◌, length, Bytes, codes, String, str_eq, Bool-cases, inl, inr, length-append,
}
use cross_session_codex.Bytes.{all_bytes, is_hex, value_from, cut_last}
use cross_session_codex.Envelope.{max_buffer}
use cross_session_codex.Json.{ℤ, pos}
use cross_session_codex.Numbers.{int_eq}
use cross_session_codex.Path.{base}
use cross_session_codex.Peer.{Peer, PeerKey}
use cross_session_codex.Registry.{socket_path, Meeting, connect_verified_peer}

abbrev pub number_of : Option (Bytes × Bytes) → ℤ
number_of none = pos 0
number_of (some (n, kind)) = pos (value_from 0 n)

-- The pid that the name of a socket says.
abbrev pub socket_pid : Bytes → ℤ
socket_pid path = number_of (cut_last b'.' (base path))

abbrev pub is_same_session : ℤ → PeerKey → Bytes → (String → Bytes → Bool) → Peer → Bool
is_same_session pid key path is_text p =
    int_eq p.pid pid
    && (str_eq p.start key.start && (str_eq p.domain key.domain && is_text p.socket path))

abbrev pub advertised_features :
    ℤ → PeerKey → Bytes → (String → Bytes → Bool) → Option Peer → List String
advertised_features pid key path is_text none = []
advertised_features pid key path is_text (some p) =
    if is_same_session pid key path is_text p then p.features else []

-- Where an answer to an address goes: the pid and the path of its socket, and what its key and its file
-- in the registry say of it.
pub record ReplyTarget : Type 0 where
  pub pid : ℤ
  pub path : Bytes
  pub start : String
  pub domain : String
  pub features : List String

abbrev pub of_key :
    Bytes → (String → Bytes → Bool) → Option PeerKey → Option Peer → Option ReplyTarget
of_key path is_text none advertised = none
of_key path is_text (some key) advertised = some (record {
  pid = socket_pid path;
  path = path;
  start = key.start;
  domain = key.domain;
  features = advertised_features (socket_pid path) key path is_text advertised;
})

abbrev pub at_path :
    (ℤ → Bytes → Option PeerKey)
    → (ℤ → Option Peer)
    → (String → Bytes → Bool)
    → Option Bytes
    → Option ReplyTarget
at_path read_key read_peer is_text none = none
at_path read_key read_peer is_text (some path) =
    of_key path is_text (read_key (socket_pid path) path) (read_peer (socket_pid path))

-- read_key and read_peer are readJSON of a key and of a file of the registry.
unfoldable pub reply_target :
    (ℤ → Bytes → Option PeerKey)
    → (ℤ → Option Peer)
    → (String → Bytes → Bool)
    → Bytes
    → Option ReplyTarget
reply_target read_key read_peer is_text address =
    at_path read_key read_peer is_text (socket_path address)

-- tokenRE
abbrev pub is_token : Bytes → Bool
is_token t = length t == 32 && all_bytes is_hex t

abbrev pub fits_target : Peer → PeerKey → Bool
fits_target p key =
    str_eq key.start p.start && (str_eq key.domain p.domain && is_token (codes key.token))

-- What is sent: the line with the token and the frame.
abbrev pub payload_of : (String → Bytes) → PeerKey → Bytes → Bytes
payload_of auth key frame = auth key.token ++ 10 ∷ (frame ++ 10 ∷ [])

abbrev pub with_key : (String → Bytes) → Meeting → Peer → Bytes → Option PeerKey → Option Bytes
with_key auth meeting target frame none = none
with_key auth meeting target frame (some key) =
    if fits_target target key
      && (not (ltb max_buffer (length (payload_of auth key frame)))
          && connect_verified_peer meeting target.pid)
    then some (payload_of auth key frame)
    else none

abbrev pub to_path :
    (String → Bytes)
    → (ℤ → Bytes → Option PeerKey)
    → Meeting
    → Peer
    → Bytes
    → Option Bytes
    → Option Bytes
to_path auth read_key meeting target frame none = none
to_path auth read_key meeting target frame (some path) =
    with_key auth meeting target frame (read_key target.pid path)

-- The bytes that sendFrame copies to the connection, where it comes to that; auth is the JSON of the line
-- with the token.
unfoldable pub send_frame :
    (String → Bytes) → (ℤ → Bytes → Option PeerKey) → Meeting → Peer → Bytes → Option Bytes
send_frame auth read_key meeting target frame =
    to_path auth read_key meeting target frame (socket_path (codes "uds:" ++ codes target.socket))

-- What ReadSlice says of a slice: it ends with a line feed, the buffer was full, or reading failed.
pub data Slice : Type 0 where
  whole : Bytes → Slice
  full : Bytes → Slice
  failed : Bytes → Slice

pub data Line : Type 0 where
  line : Bytes → Line
  no_line : Line
  waits : Line

abbrev pub slice_bytes : Slice → Bytes
slice_bytes (whole b) = b
slice_bytes (full b) = b
slice_bytes (failed b) = b

abbrev pub line_after : Slice → Bytes → Line → Line
line_after (whole b) all rest = line all
line_after (full b) all rest = rest
line_after (failed b) all rest = no_line

unfoldable pub read_line : ℕ → List Slice → Bytes → Line
read_line most [] all = waits
read_line most (s ∷ slices) all =
    let rest = read_line most slices (all ++ slice_bytes s) in
    if ltb most (length all + length (slice_bytes s))
    then no_line
    else line_after s (all ++ slice_bytes s) rest

line_bound :
    (most : ℕ) (s : Slice) (all got : Bytes) (rest : Line)
    → ltb most (length all) ≡ false
    → (rest ≡ line got → ltb most (length got) ≡ false)
    → line_after s all rest ≡ line got
    → ltb most (length got) ≡ false
line_bound most (whole b) all got rest k ih h = let e : all ≡ got = cc in rw (← e) k
line_bound most (full b) all got rest k ih h = ih h
line_bound most (failed b) all got rest k ih h = absurd cc

-- A line that readLine returns has at most as many bytes as it may have.
pub read_line-bound :
    (most : ℕ) (slices : List Slice) (all got : Bytes)
    → read_line most slices all ≡ line got
    → ltb most (length got) ≡ false
unfolding read_line
read_line-bound most [] all got h = absurd cc
read_line-bound most (s ∷ slices) all got h =
    elim (Bool-cases (ltb most (length all + length (slice_bytes s)))) [
      | inl e ↦ let k : no_line ≡ line got = rw e at h in absurd cc
      | inr e ↦
          line_bound most s (all ++ slice_bytes s) got
            (read_line most slices (all ++ slice_bytes s))
            (rw (length-append all (slice_bytes s)) e)
            (read_line-bound most slices (all ++ slice_bytes s) got) (rw e at h)
    ]
