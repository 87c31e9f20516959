-- ===== src/Shutdown.antt =====
-- internal/bridge/appserver_stop.go: the errors of a shutdown, and the identity of the process that it
-- may signal.
pub mod Inventory
pub mod Connections
pub mod Decision
pub mod Steps
pub mod Inspection
pub mod Signals
pub mod Threads
use cross_session_codex.Common.{
  ℕ, String, Bool, true, false, not, ◌&&◌, ◌||◌, List, [], ◌∷◌, Option, none, some, ltb, str_eq,
  if◌then◌else◌, length, ◌==◌,
}
use cross_session_codex.Json.{ℤ, pos, negsuc}
use cross_session_codex.Numbers.{int_eq}

-- Why nothing is stopped.
pub data StopError : Type 0 where
  bad_path not_locked unverified invalid_record still_alive invalid_process no_start record_mismatch
        unknown_command socket_unreadable socket_changed owners_unknown threads_unknown other_thread
        unknown_status bad_pagination too_many_pages connections_unknown inspection_lost busy
        connected identity_changed cancelled signal_failed did_not_exit :
      StopError

pub data Stop (A : Type 0) : Type 0 where
  done : A → Stop A
  halt : StopError → Stop A

infixl 5 ◌>>=◌ ◌>>◌
abbrev pub ◌>>=◌ : {A B : Type 0} → Stop A → (A → Stop B) → Stop B
done a >>= f = f a
halt e >>= f = halt e

abbrev pub ◌>>◌ : {A B : Type 0} → Stop A → Stop B → Stop B
m >> n = m >>= λ _. n

abbrev pub ensure : Bool → StopError → Stop (Unit {0})
ensure true e = done tt
ensure false e = halt e

abbrev pub obtain : {A : Type 0} → StopError → Option A → Stop A
obtain e none = halt e
obtain e (some a) = done a

-- appServerRecord
pub record AppServerRecord : Type 0 where
  pub pid : ℤ
  pub start : String
  pub socket : String

-- What reading the launch record gives.
pub data Launch : Type 0 where
  no_record unreadable : Launch
  recorded : AppServerRecord → Launch

-- pid <= 1
abbrev pub is_low : ℤ → Bool
is_low (pos n) = ltb n 2
is_low (negsuc n) = true

abbrev pub same_record : AppServerRecord → AppServerRecord → Bool
same_record a b = int_eq a.pid b.pid && str_eq a.start b.start && str_eq a.socket b.socket

-- (err == nil && start != recorded.Start) || errors.Is(unix.Kill(pid, 0), unix.ESRCH)
abbrev pub is_over : Option String → Bool → String → Bool
is_over none exited start = exited
is_over (some s) exited start = not (str_eq s start) || exited

-- checkStoppedAppServerRecord(socket)
unfoldable pub check_stopped : (ℤ → Option String) → (ℤ → Bool) → String → Launch → Stop (Unit {0})
check_stopped process_start has_exited socket no_record = done tt
check_stopped process_start has_exited socket unreadable = halt unverified
check_stopped process_start has_exited socket (recorded r) =
    if is_low r.pid || str_eq r.start "" || not (str_eq r.socket socket)
    then halt invalid_record
    else if is_over (process_start r.pid) (has_exited r.pid) r.start
    then done tt
    else halt still_alive

abbrev by_launch : AppServerRecord → Bool → Launch → Stop AppServerRecord
by_launch identity command no_record = if command then done identity else halt unknown_command
by_launch identity command unreadable = halt unverified
by_launch identity command (recorded r) =
    if same_record r identity then done identity else halt record_mismatch

-- shutdownIdentity(ctx, socket, pid); `command` says that the process runs the direct launch command
unfoldable pub shutdown_identity :
    (ℤ → Option String) → ℤ → Bool → Launch → String → ℤ → Stop AppServerRecord
shutdown_identity process_start self command launch socket pid =
    if is_low pid || int_eq pid self then halt invalid_process else (do
      start ← obtain no_start (process_start pid)
      by_launch (record { pid = pid; start = start; socket = socket }) command launch)
