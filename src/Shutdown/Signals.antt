-- ===== src/Shutdown/Signals.antt =====
-- appserver_stop.go: when `Shutdown` signals a process.
use mathlib.Core.Path.{subst}
use cross_session_codex.Common.{
  ◌≡◌, refl, sym, ap, ◌∙◌, String, Bool, true, false, not, List, [], ◌∷◌, Option, some, Bool-cases,
  inl, inr, arith,
}
use cross_session_codex.Json.{ℤ}
use cross_session_codex.Shutdown.{
  Stop, done, halt, AppServerRecord, shutdown_identity, check_stopped,
}
use cross_session_codex.Shutdown.Inventory.{Entry, owners_of, active_threads}
use cross_session_codex.Shutdown.Decision.{
  Answers, Probe, server, nobody, unclear, Standing, inspect, is_busy, recheck, signal,
  after_recheck, settle, stopped_already, probed, shutdown,
}
use cross_session_codex.Shutdown.Inspection.{
  Inspected, inspect-Inspected, recheck-done, is_busy-false, shutdown_identity-pid,
}

-- What holds when a process was signalled.
pub record Justified (parse_uuid : String → Option String) (a : Answers) (socket : String)
    (check : Bool) (pid : ℤ) : Type 0 where
  pub asked : check ≡ false
  pub probe : a.probe ≡ server pid
  pub start : String
  pub identity :
      shutdown_identity a.process_start a.self a.command a.launch socket pid
      ≡ done (record { pid = pid; start = start; socket = socket })
  pub owners :
      (entries : List Entry) × (a.entries ≡ some entries)
      × (owners_of parse_uuid a.process_start a.has_exited socket entries [] ≡ done [])
  pub active : active_threads a.list a.read ≡ done []
  pub connections : (a.connections_before ≡ some 0) × (a.connections_after ≡ some 0)
  pub live : (a.is_live_before ≡ true) × (a.is_live_after ≡ true)
  pub same_process : a.start_after ≡ some start
  pub same_socket : (a.same_socket_before ≡ some true) × (a.same_socket_after ≡ some true)
  pub going : (a.is_cancelled ≡ false) × (a.is_closed ≡ false)

module _ (parse_uuid : String → Option String) (a : Answers) (socket : String) where
  signal-pid :
      (s : Standing) (p : ℤ) → (signal parse_uuid a socket s).1 ≡ p ∷ [] → s.identity.pid ≡ p
  signal-pid s p h = elim (Bool-cases a.can_signal) [
    | inl e ↦ elim (Bool-cases a.exits) [
      | inl f ↦ ground (arith, h, e, f)
      | inr f ↦ ground (arith, h, e, f)
    ]
    | inr e ↦ absurd (ground (arith, h, e))
  ]

  after_recheck-done :
      (s : Standing) (m : Stop (Unit {0})) (p : ℤ)
      → (after_recheck parse_uuid a socket s m).1 ≡ p ∷ []
      → (m ≡ done tt) × (s.identity.pid ≡ p)
  after_recheck-done s (halt e) p h = absurd cc
  after_recheck-done s (done tt) p h = (refl, signal-pid s p h)

  settle-done :
      (check : Bool) (m : Stop Standing) (p : ℤ)
      → (settle parse_uuid a socket check m).1 ≡ p ∷ []
      → (s : Standing) × (m ≡ done s)
        × (check ≡ false)
        × (is_busy s ≡ false)
        × (recheck parse_uuid a socket s ≡ done tt)
        × (s.identity.pid ≡ p)
  settle-done check (halt e) p h = absurd cc
  settle-done true (done s) p h = absurd (ground (arith, h))
  settle-done false (done s) p h = elim (Bool-cases (is_busy s)) [
    | inl e ↦ absurd (ground (arith, h, e))
    | inr e ↦
        let (r, q) =
          after_recheck-done s (recheck parse_uuid a socket s) p (ground (arith, h, e)) in
        (s, refl, refl, e, r, q)
  ]

  justify :
      (pid : ℤ) (s : Standing)
      → a.probe ≡ server pid
      → Inspected parse_uuid a socket pid s
      → is_busy s ≡ false
      → recheck parse_uuid a socket s ≡ done tt
      → (start : String) × (record { pid = pid; start = start; socket = socket } ≡ s.identity)
      → Justified parse_uuid a socket false pid
  justify pid s probe seen free again (start, shape) =
      let (no_owners, no_active, no_connections) = is_busy-false s free in
      let (connections, live, same_start, same_socket, kept, unclosed) =
        recheck-done parse_uuid a socket s again in
      record {
        asked = refl;
        probe = probe;
        start = start;
        identity = seen.identity ∙ ap done (sym shape);
        owners = (seen.owners.0, seen.owners.1, seen.owners.2 ∙ ap done no_owners);
        active = seen.active ∙ ap done no_active;
        connections = (seen.connections ∙ ap some no_connections, connections);
        live = (seen.live, live);
        same_process = same_start ∙ ap (λ (r : AppServerRecord). some r.start) (sym shape);
        same_socket = (seen.same, same_socket);
        going = (kept, unclosed);
      }

  probed-Justified :
      (check : Bool) (probe : Probe) (p : ℤ)
      → a.probe ≡ probe
      → (probed parse_uuid a socket check probe).1 ≡ p ∷ []
      → Justified parse_uuid a socket check p
  probed-Justified check nobody p e h =
      absurd (no-signal (check_stopped a.process_start a.has_exited socket a.launch) h)
    where
      no-signal : (m : Stop (Unit {0})) → (stopped_already m).1 ≡ p ∷ [] → ⊥
      no-signal (halt e) h = cc
      no-signal (done tt) h = cc
  probed-Justified check unclear p e h = absurd cc
  probed-Justified check (server pid) p e h =
      let (s, is_done, asked, free, again, same_pid) =
        settle-done check (inspect parse_uuid a socket pid) p h in
      let seen = inspect-Inspected parse_uuid a socket pid s is_done in
      let shape =
        shutdown_identity-pid a.process_start a.self a.command a.launch socket pid s.identity
          seen.identity in
      let reason = justify pid s e seen free again shape in
      let same : pid ≡ p = ap (λ (r : AppServerRecord). r.pid) shape.1 ∙ same_pid in
      subst (λ c. Justified parse_uuid a socket c p) (sym asked)
        (subst (Justified parse_uuid a socket false) same reason)

-- `Shutdown` signals a process only if it is the one that the kernel gives for the socket, started as
-- it was when it was identified, with the launch record or the launch command of this socket; the first
-- inspection found no session that owns it, no active thread and no other client; the second one, which
-- asks only for clients, the process and the socket, found no other client either, and the same process
-- and socket; the connection lived through both, and the call was neither a mere check nor cancelled.
pub shutdown-Justified :
    (parse_uuid : String → Option String) (a : Answers) (socket : String) (check : Bool) (p : ℤ)
    → (shutdown parse_uuid a socket check).1 ≡ p ∷ []
    → Justified parse_uuid a socket check p
unfolding shutdown
shutdown-Justified parse_uuid a socket check p h = elim (Bool-cases (not a.is_clean_path)) [
  | inl e ↦ absurd (ground (arith, h, e))
  | inr e ↦ elim (Bool-cases (not a.is_locked)) [
    | inl f ↦ absurd (ground (arith, h, e, f))
    | inr f ↦ probed-Justified parse_uuid a socket check a.probe p refl (ground (arith, h, e, f))
  ]
]
