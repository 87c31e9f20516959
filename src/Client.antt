-- ===== src/Client.antt =====
-- internal/bridge/appserver.go: one connection to the app-server that many calls share.
pub mod Channels
pub mod Steps
pub mod Served
pub mod Calls
pub mod Threads
pub mod Quote
use cross_session_codex.Common.{
  ℕ, suc, Bool, true, false, not, ◌&&◌, ◌||◌, List, [], ◌∷◌, Option, none, some, ◌==◌,
  if◌then◌else◌, String, str_eq,
}

-- What a call waits for: the result or the error of the reply with the id, or the end of the connection.
pub data Answer : Type 0 where
  result : ℕ → String → Answer
  error : ℕ → String → Answer
  lost : Answer

-- A call that has not returned: its id and its channel of one place.
pub record Waiting : Type 0 where
  pub id : ℕ
  pub channel : Option Answer

-- The client. A reply that the read loop took out of the pending ones and has not yet put into its
-- channel is in its hand.
pub record Client : Type 0 where
  pub next : ℕ
  pub pending : List ℕ
  pub calls : List Waiting
  pub hand : Option (ℕ × Answer)
  pub closed : Bool
  pub watch_thread : String
  pub watch_name : String
  pub recorded : Bool

abbrev pub member : ℕ → List ℕ → Bool
member id [] = false
member id (p ∷ ps) = p == id || member id ps

abbrev pub remove : ℕ → List ℕ → List ℕ
remove id [] = []
remove id (p ∷ ps) = let rest = remove id ps in if p == id then rest else p ∷ rest

abbrev pub without : ℕ → List Waiting → List Waiting
without id [] = []
without id (c ∷ cs) = let rest = without id cs in if c.id == id then rest else c ∷ rest

abbrev pub new_client : Client
new_client = record {
  next = 0;
  pending = [];
  calls = [];
  hand = none;
  closed = false;
  watch_thread = "";
  watch_name = "";
  recorded = false;
}

-- The start of a call: no id where the connection is closed.
unfoldable pub begin_call : Client → Option ℕ × Client
begin_call c = if c.closed then (none, c) else (
  some (suc c.next),
  record c {
    next = suc c.next;
    pending = suc c.next ∷ c.pending;
    calls = record { id = suc c.next; channel = none } ∷ c.calls;
  },
)

abbrev pub lose : List ℕ → List Waiting → List Waiting
lose pending [] = []
lose pending (w ∷ ws) =
    (if member w.id pending then record w { channel = some lost } else w) ∷ lose pending ws

unfoldable pub fail : Client → Client
fail c =
    if c.closed then c else record c { closed = true; calls = lose c.pending c.calls; pending = [] }

-- The deferred end of a call, whether it has an answer or its context is done.
unfoldable pub end_call : ℕ → Client → Client
end_call id c = record c { pending = remove id c.pending; calls = without id c.calls }

abbrev pub channel_of : ℕ → List Waiting → Option Answer
channel_of id [] = none
channel_of id (w ∷ ws) = let rest = channel_of id ws in if w.id == id then w.channel else rest

-- r := <-ch, and what the call returns
unfoldable pub take_answer : ℕ → Client → Option Answer × Client
take_answer id c = elim (channel_of id c.calls) [
  | none ↦ (none, c)
  | some a ↦ (some a, end_call id c)
]

-- A call whose write fails.
unfoldable pub fail_write : ℕ → Client → Client
unfolding fail end_call
fail_write id c = end_call id (fail c)

-- The messages of the app-server that the read loop can read.
pub data Incoming : Type 0 where
  -- item/completed with the thread, the type and the name of its item
  completed : String → String → String → Incoming
  -- another notification, or a request, which is refused
  notified : Incoming
  reply : ℕ → Option String → String → Incoming

abbrev pub answer_of : ℕ → Option String → String → Answer
answer_of id (some e) r = error id e
answer_of id none r = result id r

abbrev pub is_watched : Client → String → String → String → Bool
is_watched c thread kind name =
    str_eq thread c.watch_thread && str_eq name c.watch_name && str_eq kind "functionCallOutput"

-- One round of the read loop, up to the end of its critical section.
abbrev pub read_message : Incoming → Client → Client
read_message (completed thread kind name) c =
    if is_watched c thread kind name then record c { recorded = true } else c
read_message notified c = c
read_message (reply id e r) c =
    if member id c.pending
    then record c { pending = remove id c.pending; hand = some (id, answer_of id e r) }
    else c

-- The read loop reads on when its hand is empty and the connection is not lost.
unfoldable pub receive_message : Incoming → Client → Client
receive_message m c = elim c.hand [ none ↦ read_message m c | some h ↦ c ]

abbrev pub fill_channel : ℕ → Answer → List Waiting → List Waiting
fill_channel id a [] = []
fill_channel id a (w ∷ ws) =
    (if w.id == id then record w { channel = some a } else w) ∷ fill_channel id a ws

-- ch <- r
unfoldable pub put_answer : Client → Client
put_answer c = elim c.hand [
  | none ↦ c
  | some (id, a) ↦ record c { hand = none; calls = fill_channel id a c.calls }
]

unfoldable pub watch : String → String → Client → Client
watch thread name c =
    if not (str_eq c.watch_thread thread && str_eq c.watch_name name)
    then record c { watch_thread = thread; watch_name = name; recorded = false }
    else c

-- What can happen to a client, one critical section at a time.
pub data Event : Type 0 where
  begins : Event
  write_fails : ℕ → Event
  arrives : Incoming → Event
  puts : Event
  takes : ℕ → Event
  gives_up : ℕ → Event
  disconnects : Event
  watches : String → String → Event

abbrev pub happen : Event → Client → Client
happen begins c = (begin_call c).1
happen (write_fails id) c = fail_write id c
happen (arrives m) c = receive_message m c
happen puts c = put_answer c
happen (takes id) c = (take_answer id c).1
happen (gives_up id) c = end_call id c
happen disconnects c = fail c
happen (watches thread name) c = watch thread name c

abbrev pub history : List Event → Client → Client
history [] c = c
history (e ∷ es) c = history es (happen e c)
