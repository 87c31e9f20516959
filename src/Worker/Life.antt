-- ===== src/Worker/Life.antt =====
-- worker.go: a worker's life as a sequence of events. Each of them is a whole operation; the goroutines
-- of the program can interleave at single calls of the store, which this sequence does not show.
use cross_session_codex.Common.{
  ℕ, ◌∷◌, ◌≤◌, length, ◌≡◌, String, Bool, List, [], ◌∷◌, Option, arith,
}
use cross_session_codex.Json.{Json, Fields}
use cross_session_codex.Peer.{Peer}
use cross_session_codex.Sql.{World}
use cross_session_codex.Store.{Message}
use cross_session_codex.Store.Rows.{count_rows}
use cross_session_codex.Envelope.{Framed}
use cross_session_codex.Config.{Config, Checked, Owner}
use cross_session_codex.Worker.{Node, StatusRequest, flush_drops}
use cross_session_codex.Worker.Receive.{receive}
use cross_session_codex.Worker.Commands.{Verdict, decide, send_to, reply}
use cross_session_codex.Worker.Configure.{Surroundings, configure}
use cross_session_codex.Worker.Delivering.{AppServer, maintenance, behind, next_status}
use cross_session_codex.Worker.Soundness.{IsSound, flush_drops-IsSound}
use cross_session_codex.Worker.Operations.{
  receive-IsSound, decide-IsSound, send_to-IsSound, reply-IsSound,
}
use cross_session_codex.Worker.Settings.{configure-IsSound}
use cross_session_codex.Worker.Upkeep.{maintenance-IsSound}

-- What the operations take from outside: the text of an identity, decodeUser, the match of receipts,
-- sendFrame, userFrame, replyTarget and applyConfig, with the parameters that these take.
pub record Outside : Type 0 where
  pub identity : ℕ → String → String
  pub decode : Fields → Framed Message
  pub matches : ℕ → String → Peer → Bool
  pub write : Peer → Fields → Option Json
  pub frame : Config → String → Framed Fields
  pub reply_target : Json → Option Peer
  pub apply : Fields → Config → Checked Config

pub data Event : Type 0 where
  arrives : Fields → ℕ → String → ℕ → String → Event
  decides : ℕ → Verdict → Fields → Event
  sends : Option Peer → ℕ → Event
  replies : String → ℕ → Event
  configures : ℕ → Surroundings → Fields → Event
  maintains : AppServer → ℕ → Bool → String → String → (Config → Owner) → Event
  flushes : Event
  reports : Event

-- operation(args) notes first that the worker is in use.
abbrev pub touched : ℕ → World Node → World Node
touched now w = record w { tables = record w.tables { last_touch = now } }

module _ (o : Outside) where
  abbrev pub happen : Event → World Node → Node
  happen (arrives f pid start now fresh) w =
      (receive o.identity o.decode o.matches f pid start now fresh w).1.tables
  happen (decides now v args) w = (decide v args (touched now w)).1.tables
  happen (sends target now) w = (send_to o.write o.frame target now (touched now w)).1.tables
  happen (replies id now) w = (reply o.write o.frame o.reply_target id now (touched now w)).1.tables
  happen (configures now around args) w = (configure around o.apply args (touched now w)).1.tables
  happen (maintains app now publishes fresh detail owner) w =
      (maintenance app now publishes fresh detail owner w).1.tables
  happen flushes w = (flush_drops w).1.tables
  happen reports w = next_status w.tables

  -- A sequence of events, each with the faults that its statements meet.
  unfoldable pub live : List (List Bool × Event) → Node → Node
  live [] n = n
  live ((faults, e) ∷ es) n = live es (happen e (record { tables = n; faults = faults }))

touched-IsSound : (now : ℕ) (w : World Node) → IsSound w.tables → IsSound (touched now w).tables
touched-IsSound now w s = record {
  inbox = s.inbox;
  queue = s.queue;
  keys = s.keys;
  batches = s.batches;
}

next_status-IsSound : (n : Node) → IsSound n → IsSound (next_status n)
next_status-IsSound n s = record {
  inbox = s.inbox;
  queue = shorter n.status_queue s.queue;
  keys = s.keys;
  batches = s.batches;
}
  where
    shorter : (queue : List StatusRequest) → length queue ≤ 128 → length (behind queue) ≤ 128
    shorter [] h = h
    shorter (r ∷ rs) h = omega (arith, h)

happen-IsSound :
    (o : Outside) (e : Event) (w : World Node) → IsSound w.tables → IsSound (happen o e w)
happen-IsSound o (arrives f pid start now fresh) w s =
    receive-IsSound o.identity o.decode o.matches f pid start now fresh w s
happen-IsSound o (decides now v args) w s =
    decide-IsSound v args (touched now w) (touched-IsSound now w s)
happen-IsSound o (sends target now) w s =
    (send_to-IsSound o.write o.frame target now).at (touched now w) (touched-IsSound now w s)
happen-IsSound o (replies id now) w s =
    (reply-IsSound o.write o.frame o.reply_target id now).at (touched now w)
      (touched-IsSound now w s)
happen-IsSound o (configures now around args) w s =
    configure-IsSound around o.apply args (touched now w) (touched-IsSound now w s)
happen-IsSound o (maintains app now publishes fresh detail owner) w s =
    maintenance-IsSound app now publishes fresh detail owner w s
happen-IsSound o flushes w s = flush_drops-IsSound.at w s
happen-IsSound o reports w s = next_status-IsSound w.tables s

live-IsSound_from :
    (o : Outside) (es : List (List Bool × Event)) (n : Node) → IsSound n → IsSound (live o es n)
unfolding live
live-IsSound_from o [] n s = s
live-IsSound_from o ((faults, e) ∷ es) n s =
    live-IsSound_from o es _ (happen-IsSound o e (record { tables = n; faults = faults }) s)

new-IsSound : (n : Node) → n.db.inbox ≡ [] → n.status_queue ≡ [] → n.drops ≡ [] → IsSound n
unfolding count_rows
new-IsSound n inbox queue drops = record {
  inbox = record {
    unread_fits = rw inbox (ground arith);
    held_fits = rw inbox (ground arith);
    ascending = rw inbox tt;
    distinct = rw inbox tt;
  };
  queue = rw queue (ground arith);
  keys = rw drops (ground arith);
  batches = rw drops tt;
}

-- A worker that starts with an empty inbox and nothing waiting in memory is sound after every sequence of
-- frames, commands, configurations, maintenance passes, and reports of drops and of statuses, whatever peers, the user, the app-server and the
-- file system do and whichever statements fail: never more than 50 messages are unread and 100 held,
-- and what waits in memory stays within its bounds.
pub live-IsSound :
    (o : Outside) (es : List (List Bool × Event)) (n : Node)
    → n.db.inbox ≡ []
    → n.status_queue ≡ []
    → n.drops ≡ []
    → IsSound (live o es n)
live-IsSound o es n inbox queue drops = live-IsSound_from o es n (new-IsSound n inbox queue drops)
