-- ===== src/Examples.antt =====
-- The theorems about internal/bridge, applied to one small inbox, its outbound table and one
-- configuration.
mod Workers
mod Shutdowns
mod Identities
mod Envelopes
mod Releases
mod Clients
mod Connections
use Prim.Native.Char.{Char, code}
use cross_session_codex.Common.{
  ℕ, suc, ◌+◌, ◌*◌, ◌%◌, ◌^◌, ◌≤◌, ◌≡◌, refl, String, Bool, true, false, List, [], ◌∷◌, Option,
  none, some, All, ltb, length, inl, inr, arith, if◌then◌else◌, eq_refl, str_eq, map, ◌==◌,
}
use cross_session_codex.Json.{ℤ, pos, Json, Fields, null, text, empty, field}
use cross_session_codex.Peer.{Peer}
use cross_session_codex.Sql.{World, calm, ok, Result}
use cross_session_codex.Store.{
  Db, Row, Message, State, unread, held, read, declined, Delivery, Outgoing, sending,
  sent_unconfirmed, accepted, Wake, attempted, submitted, uncertain, empty_db, same,
}
use cross_session_codex.Store.Rows.{count_rows, rows_after}
use cross_session_codex.Store.Admission.{accept, has_id}
use cross_session_codex.Store.Transition.{transition_tx, is_empty}
use cross_session_codex.Store.Expiry.{expire}
use cross_session_codex.Store.Outbound.{correlate, find_sent}
use cross_session_codex.Store.Notice.{begin_wake, finish_wake, reset_delivery}
use cross_session_codex.Store.Validity.{IsValid}
use cross_session_codex.Store.Capacity.{accept-IsValid}
use cross_session_codex.Store.Moves.{transition_tx-IsValid}
use cross_session_codex.Store.Wakes.{IsCoherent, notice-IsCoherent}
use cross_session_codex.Store.Reads.{new_reads, read_all}
use cross_session_codex.Store.Acknowledgement.{acknowledge_lem, notice_after}
use cross_session_codex.Store.Receipts.{correlate-Shows}
use cross_session_codex.Store.Atomic.{Undone, errors_change_nothing}
use cross_session_codex.Store.Reading.{walk, walk_complete}
use cross_session_codex.Names.{normalize_name, runes}
use cross_session_codex.Names.Normal.{normalize_name_idem}
use cross_session_codex.Config.{Config, Owner, owned, check_host}
use cross_session_codex.Config.Validation.{Explains, check_host-Explains}

abbrev letter : String → ℕ → Message
letter id at = record {
  wire_id = id;
  body = "hello";
  sender = null;
  from_name = "peer";
  from_mode = none;
  raw_envelope = "";
  hop_chain = "";
  verified_peer_pid = 7;
  verified_peer_start = "9";
  id = id;
  received_at = at;
}

abbrev row : ℕ → String → State → Row
row n id s = record {
  rowid = n;
  id = id;
  wire_id = id;
  peer = "p";
  received = 5;
  state = s;
  content = letter id 5;
}

abbrev notice : Wake
notice = record {
  id = "w";
  name = "n";
  state = uncertain;
  submitted = false;
  needs_manual_action = true;
  ack_revision = 0;
  created_at = 1;
  detail = "";
}

abbrev inbox : List Row
inbox = row 1 "a" unread ∷ row 2 "b" held ∷ row 4 "c" unread ∷ []

abbrev target : Peer
target = record {
  pid = pos 12;
  start = "34";
  domain = "";
  socket = "/s";
  name = "n";
  thread = "";
  host_pid = pos 0;
  host_start = "";
  features = [];
  ref = "";
  cwd = "/w";
  status = "";
  activity = empty;
  version = "";
  protocol = pos 1;
}

abbrev gone : Outgoing
gone = record { id = "m"; created = 2; target = target; state = Delivery.read; detail = null }

abbrev db : Db
db = record {
  inbox = inbox;
  outbound = gone ∷ [];
  metadata = record {
    ack_revision = 3;
    wake = some notice;
    delivery_waiting = none;
    delivery_error = none;
    retry_at = 0;
  };
}

-- The third statement fails.
abbrev world : World Db
world = record { tables = db; faults = false ∷ false ∷ true ∷ [] }

db-IsValid : IsValid db
unfolding count_rows has_id
db-IsValid = record {
  unread_fits = ground arith;
  held_fits = ground arith;
  ascending = (ground arith, (ground arith, (ground arith, tt)));
  distinct = (refl, (refl, (refl, tt)));
}

accept-IsValid_example : IsValid (accept (letter "d" 9) "q" unread 9 "d" world).1.tables
accept-IsValid_example = accept-IsValid (letter "d" 9) "q" unread 9 "d" world db-IsValid

transition_tx-IsValid_example : IsValid (transition_tx ("b" ∷ "b" ∷ []) held unread world).1.tables
transition_tx-IsValid_example =
    transition_tx-IsValid ("b" ∷ "b" ∷ []) held unread world refl db-IsValid

db-IsCoherent : IsCoherent db
db-IsCoherent = (refl, refl, λ e. cc)

notice-IsCoherent_example :
    IsCoherent (begin_wake "x" 9 world).1.tables
    × IsCoherent (finish_wake "x" submitted "" world).1.tables
    × IsCoherent (reset_delivery world).1.tables
    × IsCoherent (transition_tx ("a" ∷ []) unread read world).1.tables
    × IsCoherent (expire 999 world).1.tables
notice-IsCoherent_example =
    notice-IsCoherent "x" "" 9 999 submitted ("a" ∷ []) unread read world db-IsCoherent

abbrev frame : Fields
frame = field "status" (text "accepted") (field "orig_msg_id" (text "m") empty)

correlate-Shows_example :
    find_sent "m" (correlate (λ _. true) frame world).1.tables.outbound ≡ some gone
unfolding find_sent
correlate-Shows_example = correlate-Shows (λ _. true) "m" gone frame world (inr refl) refl

errors_change_nothing_example :
    Undone db (accept (letter "d" 9) "q" unread 9 "x" world)
    × Undone db (transition_tx ("a" ∷ []) unread read world)
    × Undone db (expire 9 world)
    × Undone db (begin_wake "x" 9 world)
    × Undone db (finish_wake "x" submitted "" world)
    × Undone db (reset_delivery world)
errors_change_nothing_example =
    errors_change_nothing world (letter "d" 9) "q" unread unread read 9 "x" ("a" ∷ []) submitted ""

walk_complete_example :
    walk (λ _. 2) (λ _. 1000) unread 1 (length (rows_after unread 0 db.inbox) + 1) "" (calm db)
    ≡ (ok (rows_after unread 0 db.inbox), calm db)
walk_complete_example =
    walk_complete (λ _. 2) (λ _. 1000) unread 1 db db-IsValid.ascending db-IsValid.distinct
      (refl, (refl, (refl, tt))) (λ n. (ground arith, (ground arith, (ground arith, tt))))
      (ground arith)

acknowledge_lem_example :
    ((transition_tx ("a" ∷ []) unread read (calm db)).0 ≡ ok (new_reads [] ("a" ∷ []) inbox))
    × ((transition_tx ("a" ∷ []) unread read (calm db)).1.tables.inbox ≡ read_all ("a" ∷ []) inbox)
    × ((transition_tx ("a" ∷ []) unread read (calm db)).1.tables.metadata.ack_revision
        ≡ (if is_empty (new_reads [] ("a" ∷ []) inbox) then 3 else (3 + 1) % 2 ^ 64))
    × ((transition_tx ("a" ∷ []) unread read (calm db)).1.tables.metadata.wake
        ≡ notice_after
            (new_reads [] ("a" ∷ []) inbox)
            (count_rows unread 0 (read_all ("a" ∷ []) inbox))
            (some notice))
    × ((transition_tx ("a" ∷ []) unread read (calm db)).1.tables.outbound ≡ gone ∷ [])
acknowledge_lem_example = acknowledge_lem ("a" ∷ []) db

-- Names of control characters only have nothing left; a space is the only white space here.
abbrev is_control : Char → Bool
is_control c = ltb (code c) 32

abbrev is_space : Char → Bool
is_space c = code c == 32

normalize_name_idem_example :
    (runes (normalize_name is_control is_space " my name ") ≤ 64)
    × (normalize_name is_control is_space (normalize_name is_control is_space " my name ")
        ≡ normalize_name is_control is_space " my name ")
normalize_name_idem_example = normalize_name_idem is_control is_space " my name " refl refl

abbrev config : Config
config = record {
  thread = "t";
  cwd = "/w";
  name = "n";
  inbound = "parity";
  permission = "prompting";
  delivery = "manual";
  app_socket = "";
  executable = "x";
  lease = pos 10;
  host_pid = pos 5;
  host_start = "77";
}

check_host-Explains_example :
    Explains (λ _. some "77") (λ _. false) config (check_host (λ _. some "77") (λ _. false) config)
check_host-Explains_example = check_host-Explains (λ _. some "77") (λ _. false) config
