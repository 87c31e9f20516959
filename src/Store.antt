-- ===== src/Store.antt =====
-- internal/bridge/store.go: the tables of the inbox database, and one module for each group of
-- methods. Rows stand in the order of their rowid.
pub mod Rows
pub mod Admission
pub mod Page
pub mod Transition
pub mod Expiry
pub mod Outbound
pub mod Notice
pub mod Validity
pub mod Capacity
pub mod Pending
pub mod Moves
pub mod Purge
pub mod Wakes
pub mod Acknowledgement
pub mod Reads
pub mod Receipts
pub mod Atomic
pub mod Paging
pub mod Reading
pub mod Steady
use cross_session_codex.Common.{ℕ, String, Bool, List, [], ◌∷◌, Option, none, ◌==◌}
use cross_session_codex.Json.{Json}
use cross_session_codex.Peer.{Peer}

-- The states of an inbox row.
pub data State : Type 0 where
  unread held read declined expired : State

abbrev state_code : State → ℕ
state_code unread = 0
state_code held = 1
state_code read = 2
state_code declined = 3
state_code expired = 4

abbrev pub same : State → State → Bool
same a b = state_code a == state_code b

-- Why a message is dropped.
pub data Reason : Type 0 where
  duplicate rate_limit full_queue relay_loop : Reason

-- What `decodeUser` returns, with the sender's verified identity, the id and the time of arrival.
pub record Message : Type 0 where
  pub wire_id : String
  pub body : String
  pub sender : Json
  pub from_name : String
  pub from_mode : Option String
  pub raw_envelope : String
  pub hop_chain : String
  pub verified_peer_pid : ℕ
  pub verified_peer_start : String
  pub id : String
  pub received_at : ℕ

pub record Row : Type 0 where
  pub rowid : ℕ
  pub id : String
  pub wire_id : String
  pub peer : String
  pub received : ℕ
  pub state : State
  pub content : Message

-- The states of an outbound row: how far the message is known to have come.
pub data Delivery : Type 0 where
  sending sent_unconfirmed failed held declined expired released refused dropped accepted read :
      Delivery

pub record Outgoing : Type 0 where
  pub id : String
  pub created : ℕ
  pub target : Peer
  pub state : Delivery
  pub detail : Json

pub data WakeState : Type 0 where
  attempted submitted recorded uncertain rejected : WakeState

-- The notice that is to wake Codex, as `metadata` holds it under "wake".
pub record Wake : Type 0 where
  pub id : String
  pub name : String
  pub state : WakeState
  pub submitted : Bool
  pub needs_manual_action : Bool
  pub ack_revision : ℕ
  pub created_at : ℕ
  pub detail : String

-- The keys of `metadata`; `none` is a missing key or a null.
pub record Metadata : Type 0 where
  pub ack_revision : ℕ
  pub wake : Option Wake
  pub delivery_waiting : Option String
  pub delivery_error : Option String
  pub retry_at : ℕ

pub record Db : Type 0 where
  pub inbox : List Row
  pub outbound : List Outgoing
  pub metadata : Metadata

abbrev pub empty_db : Db
empty_db = record {
  inbox = [];
  outbound = [];
  metadata = record {
    ack_revision = 0;
    wake = none;
    delivery_waiting = none;
    delivery_error = none;
    retry_at = 0;
  };
}
