-- ===== src/Shutdown/Decision.antt =====
-- appserver_stop.go: `Shutdown`, which inspects an app-server twice before it signals it. What
-- processes, sockets, files and the app-server answer is a parameter; answers to the same question at
-- two times are two parameters.
use cross_session_codex.Common.{
  ℕ, String, Bool, true, false, not, ◌||◌, List, [], ◌∷◌, Option, none, some, str_eq, if◌then◌else◌,
  ◌==◌,
}
use cross_session_codex.Json.{ℤ}
use cross_session_codex.Shutdown.{
  Stop, done, halt, ◌>>=◌, ◌>>◌, ensure, obtain, AppServerRecord, Launch, check_stopped,
  shutdown_identity, bad_path, not_locked, unverified, socket_unreadable, socket_changed,
  owners_unknown, connections_unknown, inspection_lost, busy, connected, identity_changed,
  cancelled, signal_failed, did_not_exit,
}
use cross_session_codex.Shutdown.Inventory.{Listing, Thread, active_threads, Entry, owners_of}

-- What the connection to the socket gives.
pub data Probe : Type 0 where
  nobody unclear : Probe
  server : ℤ → Probe

-- The answers of one call of `Shutdown`, in the order in which it asks.
pub record Answers : Type 0 where
  pub is_clean_path : Bool
  pub is_locked : Bool
  pub probe : Probe
  pub launch : Launch
  pub process_start : ℤ → Option String
  pub has_exited : ℤ → Bool
  pub self : ℤ
  pub command : Bool
  pub same_socket_before : Option Bool
  pub entries : Option (List Entry)
  pub list : String → Option Listing
  pub read : String → Option Thread
  pub connections_before : Option ℕ
  pub is_live_before : Bool
  pub connections_after : Option ℕ
  pub is_live_after : Bool
  pub start_after : Option String
  pub same_socket_after : Option Bool
  pub is_cancelled : Bool
  pub is_closed : Bool
  pub can_signal : Bool
  pub exits : Bool

pub record Standing : Type 0 where
  pub identity : AppServerRecord
  pub owners : List String
  pub active : List String
  pub connections : ℕ

pub data Status : Type 0 where
  not_running ready busy_now stopped : Status

abbrev pub is_none : {A : Type 0} → List A → Bool
is_none [] = true
is_none (x ∷ xs) = false

-- len(owners) != 0 || len(active) != 0 || connections != 0
abbrev pub is_busy : Standing → Bool
is_busy s = not (is_none s.owners) || not (is_none s.active) || not (s.connections == 0)

abbrev pub is_start : String → Option String → Bool
is_start start none = false
is_start start (some s) = str_eq s start

abbrev pub is_same : Option Bool → Bool
is_same none = false
is_same (some b) = b

abbrev pub stopped_already : Stop (Unit {0}) → Stop Status × List ℤ
stopped_already (halt e) = (halt e, [])
stopped_already (done _) = (done not_running, [])

module _ (parse_uuid : String → Option String) (a : Answers) (socket : String) where
  -- The first inspection, on a server that answers.
  unfoldable pub inspect : ℤ → Stop Standing
  unfolding shutdown_identity owners_of active_threads
  inspect pid = do
    identity ← shutdown_identity a.process_start a.self a.command a.launch socket pid
    same ← obtain socket_unreadable a.same_socket_before
    ensure same socket_changed
    entries ← obtain owners_unknown a.entries
    owners ← owners_of parse_uuid a.process_start a.has_exited socket entries []
    active ← active_threads a.list a.read
    connections ← obtain connections_unknown a.connections_before
    ensure a.is_live_before inspection_lost
    done (record {
      identity = identity;
      owners = owners;
      active = active;
      connections = connections;
    })

  -- The second inspection, right before the signal.
  unfoldable pub recheck : Standing → Stop (Unit {0})
  recheck s = do
    connections ← obtain connections_unknown a.connections_after
    ensure a.is_live_after inspection_lost
    ensure (connections == 0) connected
    ensure (is_start s.identity.start a.start_after) identity_changed
    ensure (is_same a.same_socket_after) socket_changed
    ensure (not a.is_cancelled) cancelled
    ensure (not a.is_closed) inspection_lost

  -- The signal and the wait: the processes that were signalled, next to the answer.
  abbrev pub signal : Standing → Stop Status × List ℤ
  signal s =
      if a.can_signal
      then (if a.exits
          then (done stopped, s.identity.pid ∷ [])
          else (halt did_not_exit, s.identity.pid ∷ []))
      else (halt signal_failed, [])

  abbrev pub after_recheck : Standing → Stop (Unit {0}) → Stop Status × List ℤ
  after_recheck s (halt e) = (halt e, [])
  after_recheck s (done _) = signal s

  abbrev pub settle : Bool → Stop Standing → Stop Status × List ℤ
  settle check (halt e) = (halt e, [])
  settle check (done s) =
      if is_busy s
      then (if check then (done busy_now, []) else (halt busy, []))
      else if check
      then (done ready, [])
      else after_recheck s (recheck s)

  abbrev pub probed : Bool → Probe → Stop Status × List ℤ
  probed check nobody = stopped_already (check_stopped a.process_start a.has_exited socket a.launch)
  probed check unclear = (halt unverified, [])
  probed check (server pid) = settle check (inspect pid)

  -- Shutdown(ctx, socket, check), with the processes that it signals
  unfoldable pub shutdown : Bool → Stop Status × List ℤ
  unfolding check_stopped inspect recheck
  shutdown check =
      if not a.is_clean_path
      then (halt bad_path, [])
      else if not a.is_locked
      then (halt not_locked, [])
      else probed check a.probe
