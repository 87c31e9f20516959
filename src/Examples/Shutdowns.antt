-- ===== src/Examples/Shutdowns.antt =====
-- The theorems about internal/bridge/appserver_stop.go, applied to a server that nothing uses.
use cross_session_codex.Common.{
  ◌≡◌, refl, String, true, false, List, [], ◌∷◌, Option, none, some, All, select, str_eq,
  if◌then◌else◌,
}
use cross_session_codex.Json.{pos}
use cross_session_codex.Shutdown.{recorded, shutdown_identity}
use cross_session_codex.Shutdown.Inventory.{
  Listing, Thread, idle, active, active_threads, read_threads, read_pages, owners_of,
}
use cross_session_codex.Shutdown.Decision.{Answers, server, shutdown, inspect, recheck}
use cross_session_codex.Shutdown.Signals.{Justified, shutdown-Justified}
use cross_session_codex.Shutdown.Threads.{Chain, ids_on, IsRead, is_running, active_threads_lem}

-- Two pages, with one active thread.
abbrev list : String → Option Listing
list cursor =
    if str_eq cursor ""
    then some (record { ids = "a" ∷ "b" ∷ []; next = "2" })
    else some (record { ids = "c" ∷ []; next = "" })

abbrev read : String → Option Thread
read id = some (record { id = id; status = if str_eq id "b" then active else idle })

active_threads_lem_example :
    (pages : List Listing) × Chain list "" pages
    × All (IsRead read) (ids_on pages)
    × ("b" ∷ [] ≡ select (is_running read) (ids_on pages))
unfolding active_threads read_pages read_threads
active_threads_lem_example = active_threads_lem list read ("b" ∷ []) refl

abbrev answers : Answers
answers = record {
  is_clean_path = true;
  is_locked = true;
  probe = server (pos 40);
  launch = recorded (record { pid = pos 40; start = "7"; socket = "/s" });
  process_start = λ _. some "7";
  has_exited = λ _. false;
  self = pos 3;
  command = false;
  same_socket_before = some true;
  entries = some [];
  list = λ _. some (record { ids = []; next = "" });
  read = λ _. none;
  connections_before = some 0;
  is_live_before = true;
  connections_after = some 0;
  is_live_after = true;
  start_after = some "7";
  same_socket_after = some true;
  is_cancelled = false;
  is_closed = false;
  can_signal = true;
  exits = true;
}

shutdown-Justified_example : Justified some answers "/s" false (pos 40)
unfolding shutdown inspect recheck shutdown_identity owners_of active_threads read_pages
    read_threads
shutdown-Justified_example = shutdown-Justified some answers "/s" false (pos 40) refl

answers-Justified : Justified some answers "/s" false (pos 40)
unfolding shutdown inspect recheck shutdown_identity owners_of active_threads read_pages
    read_threads
answers-Justified = shutdown-Justified some answers "/s" false (pos 40) refl
