-- ===== src/Handshake.antt =====
-- The handoff between a launcher and its parent over two pipes: internal/bridge/launch_handshake.go.
pub mod Pipes
pub mod Consent
pub mod Agreement
use cross_session_codex.Common.{
  ℕ, zero, suc, ◌+◌, Bool, true, false, not, ◌&&◌, ◌||◌, List, [], ◌∷◌, ◌++◌, Option, none, some,
  ltb, leb, ◌==◌, if◌then◌else◌, length, take, drop, Bytes, codes,
}
use cross_session_codex.Bytes.{same_bytes, is_nothing, cut_first}
use cross_session_codex.Json.{ℤ, pos, negsuc}
use cross_session_codex.Path.{is_abs}

abbrev pub max_frame : ℕ
max_frame = 8192

-- What a system call on a pipe says besides the bytes it moved: a wait that ends well, or not at all.
pub data Fault : Type 0 where
  no_fault : Fault
  interrupted : Fault
  would_block : Bool → Fault
  broken : Fault

-- One round of a loop: the context is done, or the call moves bytes and says something.
pub data Round {ℓ} (A : Type ℓ) : Type ℓ where
  cancelled : Round A
  moved : A → Fault → Round A

-- A loop that is given no further round is still at it.
pub data Written : Type 0 where
  written : Written
  not_written : Written
  writing : Written

abbrev pub after_write : Fault → ℕ → (Written × Bytes) → (Written × Bytes)
after_write interrupted n rest = rest
after_write (would_block true) n rest = rest
after_write (would_block false) n rest = (not_written, [])
after_write broken n rest = (not_written, [])
after_write no_fault zero rest = (not_written, [])
after_write no_fault (suc n) rest = rest

abbrev pub with_sent : Bytes → (Written × Bytes) → (Written × Bytes)
with_sent b (w, sent) = (w, b ++ sent)

-- What was written, and whether that was all.
unfoldable pub write_frame : List (Round ℕ) → Bytes → Written × Bytes
write_frame rounds [] = (written, [])
write_frame [] (b ∷ bs) = (writing, [])
write_frame (cancelled ∷ rounds) (b ∷ bs) = (not_written, [])
write_frame (moved n f ∷ rounds) (b ∷ bs) =
    with_sent (take n (b ∷ bs)) (after_write f n (write_frame rounds (drop n (b ∷ bs))))

pub data Received : Type 0 where
  received : Bytes → Received
  not_received : Received
  too_long : Received
  reading : Received

abbrev pub after_read : Fault → Bytes → Bytes → Received → Received
after_read interrupted new frame rest = rest
after_read (would_block true) new frame rest = rest
after_read (would_block false) new frame rest = not_received
after_read broken new frame rest = not_received
after_read no_fault [] frame rest = received frame
after_read no_fault (b ∷ bs) frame rest = rest

unfoldable pub read_frame : List (Round Bytes) → Bytes → Received
read_frame [] frame = reading
read_frame (cancelled ∷ rounds) frame = not_received
read_frame (moved new f ∷ rounds) frame =
    let rest = read_frame rounds (frame ++ new) in
    if not (is_nothing new) && ltb max_frame (length frame + length new)
    then too_long
    else after_read f new (frame ++ new) rest

-- A value of the continuation, as a JSON decoder reads it.
pub data Value : Type 0 where
  number : ℕ → Value
  text : Bytes → Value
  null : Value
  other : Value

-- The document: the fields up to where the decoder stops, and whether the object ends there and nothing
-- but white space follows.
pub data Document : Type 0 where
  not_object : Document
  object : List (Bytes × Value) → Bool → Document

pub record Continuation : Type 0 where
  pub v : ℕ
  pub nonce : Bytes
  pub action : Bytes

abbrev pub set_v : Value → Continuation → Option Continuation
set_v (number n) c = some (record c { v = n })
set_v null c = some c
set_v _ c = none

abbrev pub set_nonce : Value → Continuation → Option Continuation
set_nonce (text t) c = some (record c { nonce = t })
set_nonce null c = some c
set_nonce _ c = none

abbrev pub set_action : Value → Continuation → Option Continuation
set_action (text t) c = some (record c { action = t })
set_action null c = some c
set_action _ c = none

abbrev pub take_field : Bytes → Value → Continuation → Option Continuation
take_field key value c =
    if same_bytes key (codes "v")
    then set_v value c
    else if same_bytes key (codes "nonce")
    then set_nonce value c
    else if same_bytes key (codes "action")
    then set_action value c
    else none

abbrev pub is_seen : Bytes → List Bytes → Bool
is_seen key [] = false
is_seen key (k ∷ ks) = same_bytes k key || is_seen key ks

abbrev pub continue_with :
    Option Continuation → (Continuation → Option Continuation) → Option Continuation
continue_with none rest = none
continue_with (some c) rest = rest c

unfoldable pub take_fields : List (Bytes × Value) → List Bytes → Continuation → Option Continuation
take_fields [] seen c = some c
take_fields ((key, value) ∷ fields) seen c =
    if is_seen key seen
    then none
    else continue_with (take_field key value c) (λ d. take_fields fields (key ∷ seen) d)

pub data Outcome : Type 0 where
  proceeds : Outcome
  canceled : Outcome
  failed : Outcome

abbrev pub nothing_read : Continuation
nothing_read = record { v = 0; nonce = []; action = [] }

abbrev pub decide_handoff : Bytes → Option Continuation → Outcome
decide_handoff nonce none = failed
decide_handoff nonce (some c) =
    if not (c.v == 1 && same_bytes c.nonce nonce)
    then failed
    else if same_bytes c.action (codes "continue")
    then proceeds
    else if same_bytes c.action (codes "cancel")
    then canceled
    else failed

abbrev pub read_document : Bytes → Document → Outcome
read_document nonce not_object = failed
read_document nonce (object fields ends) =
    let read : Outcome = decide_handoff nonce (take_fields fields [] nothing_read) in
    if ends then read else failed

-- The text before a line feed that stands at the end of the frame and nowhere else.
abbrev pub one_line : Option (Bytes × Bytes) → Option Bytes
one_line none = none
one_line (some (line, [])) = some line
one_line (some (line, b ∷ bs)) = none

abbrev pub of_line : (Bytes → Document) → Bytes → Option Bytes → Outcome
of_line decode nonce none = failed
of_line decode nonce (some line) = read_document nonce (decode line)

abbrev pub of_received : (Bytes → Document) → Bytes → Received → Outcome
of_received decode nonce (received []) = canceled
of_received decode nonce (received (b ∷ bs)) =
    of_line decode nonce (one_line (cut_first 10 (b ∷ bs)))
of_received decode nonce _ = failed

-- LaunchReady, without the version and the event, which are the same in every frame, and the nonce.
pub record Ready : Type 0 where
  pub thread_id : Bytes
  pub codex_home : Bytes
  pub app_server_socket : Bytes
  pub owner_pid : ℤ
  pub owner_start : Bytes
  pub name : Bytes
  pub version : Bytes

abbrev pub is_positive : ℤ → Bool
is_positive (pos zero) = false
is_positive (pos (suc n)) = true
is_positive (negsuc n) = false

abbrev pub holds_text : Option Bytes → Bytes → Bool
holds_text none s = false
holds_text (some t) s = same_bytes t s

-- The readiness is complete; canonical is canonicalThread.
abbrev pub is_complete : (Bytes → Option Bytes) → Ready → Bool
is_complete canonical r =
    holds_text (canonical r.thread_id) r.thread_id
    && (is_abs r.codex_home
        && (is_abs r.app_server_socket
            && (is_positive r.owner_pid
                && not (is_nothing r.owner_start || is_nothing r.name || is_nothing r.version))))

-- What is outside of the exchange: canonicalThread, the JSON of a readiness with its nonce, the decoder
-- of a continuation, the random bytes in hexadecimal, whether the context is done at the start, and the
-- rounds of the two loops.
pub record Surroundings : Type 0 where
  pub canonical : Bytes → Option Bytes
  pub encode : Ready → Bytes → Bytes
  pub decode : Bytes → Document
  pub nonce : Option Bytes
  pub done : Bool
  pub writes : List (Round ℕ)
  pub reads : List (Round Bytes)

-- How an exchange ends, what it has written, and whether the descriptors are closed.
pub record Ending : Type 0 where
  pub outcome : Outcome
  pub sent : Bytes
  pub closed : Bool

abbrev pub after_ready : Surroundings → Bytes → Written × Bytes → Ending
after_ready o nonce (written, sent) = record {
  outcome = of_received o.decode nonce (read_frame o.reads []);
  sent = sent;
  closed = true;
}
after_ready o nonce (not_written, sent) = record { outcome = failed; sent = sent; closed = true }
after_ready o nonce (writing, sent) = record { outcome = failed; sent = sent; closed = false }

-- The frame is the JSON and a line feed.
abbrev pub send_ready : Surroundings → Ready → Option Bytes → Ending
send_ready o r none = record { outcome = failed; sent = []; closed = true }
send_ready o r (some nonce) =
    let frame : Bytes = o.encode r nonce ++ 10 ∷ [] in
    let rest : Ending = after_ready o nonce (write_frame o.writes frame) in
    if ltb max_frame (length frame)
    then record { outcome = failed; sent = []; closed = true }
    else rest

-- Exchange on descriptors that are there; closed says whether they were closed before.
unfoldable pub exchange : Surroundings → Bool → Ready → Ending
exchange o closed r =
    if closed
    then record { outcome = failed; sent = []; closed = true }
    else if o.done || not (is_complete o.canonical r)
    then record { outcome = failed; sent = []; closed = true }
    else send_ready o r o.nonce
