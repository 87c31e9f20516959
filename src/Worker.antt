-- ===== src/Worker.antt =====
-- internal/bridge/worker.go: the state of a worker and the operations that its handlers share. The
-- store's methods run on the worker's database; what is kept in memory changes without a statement.
pub mod Receive
pub mod Commands
pub mod Configure
pub mod Delivering
pub mod Soundness
pub mod Operations
pub mod Settings
pub mod Upkeep
pub mod Notices
pub mod Guards
pub mod Adoption
pub mod Intake
pub mod Life
pub mod Artifacts
pub mod Foreign
use Prim.Native.Char.{code}
use Prim.Native.String.{◌++◌ as str_append}
use cross_session_codex.Common.{
  ℕ, suc, String, Bool, true, false, not, ◌&&◌, ◌||◌, List, [], ◌∷◌, ◌++◌, map, Option, none, some,
  ltb, leb, ◌==◌, str_eq, if◌then◌else◌, length,
}
use cross_session_codex.Json.{ℤ}
use cross_session_codex.Sql.{Result, ok, Sql, World, ◌>>=◌, ◌>>◌, pure}
use cross_session_codex.Store.{
  Db, Message, State, unread, held, Delivery, dropped, Reason, duplicate, rate_limit, full_queue,
  relay_loop,
}
use cross_session_codex.Json.{text_or_empty}
use cross_session_codex.Config.{Config}

-- statusRequest; no message is a nil map
pub record StatusRequest : Type 0 where
  pub message : Option Message
  pub status : Delivery
  pub reason : String
  pub ids : List String

-- One entry of `drops`, by the sender's address and the reason.
pub record Batch : Type 0 where
  pub from_address : String
  pub reason : Reason
  pub messages : List Message

-- What the registration says of the session; times are nanoseconds.
pub record Activity : Type 0 where
  pub state : String
  pub source : String
  pub detail : String
  pub observed_at : ℕ
  pub updated_at : ℕ

-- The fields of `Worker` that its handlers change or read. `status_queue` is what waits in the
-- channel, `signalled` says that the channel `changed` holds a value, `notices` are the names of the
-- notices that were handed to the app-server, in order, and `stopped` says that the context is
-- cancelled.
pub record Node : Type 0 where
  pub db : Db
  pub pid : ℕ
  pub address : String
  pub config : Config
  pub drops : List Batch
  pub status_queue : List StatusRequest
  pub signalled : Bool
  pub activity : Activity
  pub last_touch : ℕ
  pub has_client : Bool
  pub attached : Bool
  pub last_reconcile : ℕ
  pub owner_unverified : Bool
  pub notices : List String
  pub stopped : Bool

module _ {A : Type 0} where
  -- A method of the store, called by the worker.
  unfoldable pub on_store : Sql Db A → Sql Node A
  on_store m w =
      let (r, v) = m (record { tables = w.tables.db; faults = w.faults }) in
      (r, record { tables = record w.tables { db = v.tables }; faults = v.faults })

  unfoldable pub look : (Node → A) → Sql Node A
  look f w = (ok (f w.tables), w)

unfoldable pub edit : (Node → Node) → Sql Node (Unit {0})
edit f w = (ok tt, record w { tables = f w.tables })

abbrev reason_code : Reason → ℕ
reason_code duplicate = 0
reason_code rate_limit = 1
reason_code full_queue = 2
reason_code relay_loop = 3

abbrev pub same_reason : Reason → Reason → Bool
same_reason a b = reason_code a == reason_code b

abbrev is_none : Option String → Bool
is_none none = true
is_none (some s) = false

abbrev pub mode_is : String → Option String → Bool
mode_is s none = str_eq "" s
mode_is s (some m) = str_eq m s

-- admission(m); `none` is "refused"
unfoldable pub admission : Config → Message → Option State
admission c m =
    if str_eq c.inbound "accept"
    then some unread
    else if str_eq c.inbound "hold"
    then some held
    else if str_eq c.inbound "refuse"
    then none
    else if mode_is c.permission m.from_mode
        || str_eq c.permission "prompting" && is_none m.from_mode
    then some unread
    else some held

-- signal()
abbrev pub signal : Sql Node (Unit {0})
signal = edit (λ n. record n { signalled = true })

-- enqueueStatus: a channel of 128, and what does not fit is dropped
unfoldable pub enqueue : StatusRequest → List StatusRequest → List StatusRequest
enqueue r queue = if ltb (length queue) 128 then queue ++ r ∷ [] else queue

unfoldable pub enqueue_status :
    Option Message → Delivery → String → List String → Sql Node (Unit {0})
unfolding enqueue
enqueue_status m status reason ids = edit (λ n. record n {
  status_queue =
      enqueue (record { message = m; status = status; reason = reason; ids = ids }) n.status_queue;
})

abbrev pub is_key : String → Reason → Batch → Bool
is_key from_address reason b = str_eq b.from_address from_address && same_reason b.reason reason

unfoldable pub has_batch : String → Reason → List Batch → Bool
has_batch from_address reason [] = false
has_batch from_address reason (b ∷ bs) =
    is_key from_address reason b || has_batch from_address reason bs

-- append(batch, m), for a batch of fewer than 100
abbrev pub grow : Message → Batch → Batch
grow m b = if ltb (length b.messages) 100 then record b { messages = b.messages ++ m ∷ [] } else b

unfoldable pub add_to : String → Reason → Message → List Batch → List Batch
add_to from_address reason m [] =
    record { from_address = from_address; reason = reason; messages = m ∷ [] } ∷ []
add_to from_address reason m (b ∷ bs) =
    let rest = add_to from_address reason m bs in
    if is_key from_address reason b then grow m b ∷ bs else b ∷ rest

-- drop(m, reason)
unfoldable pub drop_into : Message → Reason → List Batch → List Batch
unfolding has_batch add_to
drop_into m reason drops =
    let from_address = text_or_empty m.sender in
    if not (has_batch from_address reason drops) && leb 128 (length drops)
    then drops
    else add_to from_address reason m drops

unfoldable pub drop : Message → Reason → Sql Node (Unit {0})
unfolding drop_into
drop m reason = edit (λ n. record n { drops = drop_into m reason n.drops })

-- The status of a batch: its last message, with the wire ids of those before it.
unfoldable pub last_and_ids : List String → List Message → Option (Message × List String)
last_and_ids ids [] = none
last_and_ids ids (m ∷ []) = some (m, ids)
last_and_ids ids (m ∷ k ∷ ms) = last_and_ids (ids ++ m.wire_id ∷ []) (k ∷ ms)

abbrev pub reason_text : Reason → String
reason_text duplicate = "duplicate"
reason_text rate_limit = "rate_limit"
reason_text full_queue = "full_queue"
reason_text relay_loop = "relay_loop"

-- strings.SplitN(key, "\x00", 2)[1], of the key of a batch: where the address holds a NUL, the reason
-- is read from the address.
abbrev pub after_nul : String → String → String
after_nul String.[] reason = reason
after_nul (String.◌∷◌ c s) reason =
    let rest = after_nul s reason in
    if code c == 0 then str_append s (str_append "\0" reason) else rest

unfoldable pub flush_batch : String → Option (Message × List String) → Sql Node (Unit {0})
unfolding enqueue_status
flush_batch reason none = pure tt
flush_batch reason (some (m, ids)) = enqueue_status (some m) dropped reason ids

unfoldable pub flush_all : List Batch → Sql Node (Unit {0})
unfolding last_and_ids flush_batch
flush_all [] = pure tt
flush_all (b ∷ bs) = do
  flush_batch (after_nul b.from_address (reason_text b.reason)) (last_and_ids [] b.messages)
  flush_all bs

-- flushDrops()
unfoldable pub flush_drops : Sql Node (Unit {0})
unfolding flush_all look edit
flush_drops = do
  batches ← look (λ n. n.drops)
  edit (λ n. record n { drops = [] })
  flush_all batches
