-- ===== src/Shutdown/Inspection.antt =====
-- appserver_stop.go: what the two inspections of `Shutdown` found, where they came to an end.
use cross_session_codex.Common.{
  ℕ, ◌≡◌, refl, ap, ◌∙◌, String, Bool, true, false, not, ◌||◌, List, [], ◌∷◌, Option, none, some,
  eq_iff, ◌==◌, ==_iff, Bool-cases, inl, inr, arith,
}
use cross_session_codex.Json.{ℤ}
use cross_session_codex.Numbers.{int_eq}
use cross_session_codex.Shutdown.{
  Stop, done, halt, ◌>>=◌, ensure, obtain, is_low, no_start, AppServerRecord, Launch,
  shutdown_identity, by_launch, same_record, recorded, no_record, unreadable, connections_unknown,
  inspection_lost, ◌>>◌,
}
use cross_session_codex.Shutdown.Inventory.{Entry, owners_of, active_threads}
use cross_session_codex.Shutdown.Decision.{
  Answers, Standing, is_none, inspect, is_busy, is_start, is_same, recheck,
}
use cross_session_codex.Shutdown.Steps.{
  bind-done, obtain-done, ensure-done, ensure-done_last, value_or,
}

is_same-some : (o : Option Bool) → is_same o ≡ true → o ≡ some true
is_same-some none h = cc
is_same-some (some b) h = ap some h

is_start-some : (start : String) (o : Option String) → is_start start o ≡ true → o ≡ some start
is_start-some start none h = cc
is_start-some start (some s) h = ap some ((eq_iff s start).0 h)

not-true : (b : Bool) → not b ≡ true → b ≡ false
not-true false h = refl
not-true true h = cc

-- What the first inspection found, where it came to an end.
pub record Inspected (parse_uuid : String → Option String) (a : Answers) (socket : String) (pid : ℤ)
    (s : Standing) : Type 0 where
  pub identity :
      shutdown_identity a.process_start a.self a.command a.launch socket pid ≡ done s.identity
  pub same : a.same_socket_before ≡ some true
  pub owners :
      (entries : List Entry) × (a.entries ≡ some entries)
      × (owners_of parse_uuid a.process_start a.has_exited socket entries [] ≡ done s.owners)
  pub active : active_threads a.list a.read ≡ done s.active
  pub connections : a.connections_before ≡ some s.connections
  pub live : a.is_live_before ≡ true

inspected_tail :
    (i : AppServerRecord) (owners : List String) (m : Stop (List String)) (o : Option ℕ) (b : Bool)
    (s : Standing)
    → (m >>= λ active. obtain connections_unknown o >>= λ n.
        ensure b inspection_lost
        >> done (record { identity = i; owners = owners; active = active; connections = n }))
      ≡ done s
    → (i ≡ s.identity)
      × (owners ≡ s.owners)
      × (m ≡ done s.active)
      × (o ≡ some s.connections)
      × (b ≡ true)
inspected_tail i owners (halt e) o b s h = absurd cc
inspected_tail i owners (done active) none b s h = absurd cc
inspected_tail i owners (done active) (some n) false s h = absurd cc
inspected_tail i owners (done active) (some n) true s h =
    let whole = ap (value_or s) h in
    (
      ap (λ (t : Standing). t.identity) whole,
      ap (λ (t : Standing). t.owners) whole,
      ap (λ (t : Standing). done t.active) whole,
      ap (λ (t : Standing). some t.connections) whole,
      refl,
    )

module _ (parse_uuid : String → Option String) (a : Answers) (socket : String) where
  pub inspect-Inspected :
      (pid : ℤ) (s : Standing)
      → inspect parse_uuid a socket pid ≡ done s
      → Inspected parse_uuid a socket pid s
  unfolding inspect
  inspect-Inspected pid s h =
      let (identity, e₁, h₁) =
        bind-done (shutdown_identity a.process_start a.self a.command a.launch socket pid) _ s h in
      let (same, e₂, h₂) = obtain-done _ a.same_socket_before _ s h₁ in
      let (e₃, h₃) = ensure-done same _ _ s h₂ in
      let (entries, e₄, h₄) = obtain-done _ a.entries _ s h₃ in
      let (owners, e₅, h₅) =
        bind-done (owners_of parse_uuid a.process_start a.has_exited socket entries []) _ s h₄ in
      let (i, o, active, connections, live) =
        inspected_tail identity owners (active_threads a.list a.read) a.connections_before
          a.is_live_before s h₅ in
      record {
        identity = e₁ ∙ ap done i;
        same = e₂ ∙ ap some e₃;
        owners = (entries, e₄, e₅ ∙ ap done o);
        active = active;
        connections = connections;
        live = live;
      }

  -- What the second one found, where it came to an end.
  pub recheck-done :
      (s : Standing)
      → recheck parse_uuid a socket s ≡ done tt
      → (a.connections_after ≡ some 0)
        × (a.is_live_after ≡ true)
        × (a.start_after ≡ some s.identity.start)
        × (a.same_socket_after ≡ some true)
        × (a.is_cancelled ≡ false)
        × (a.is_closed ≡ false)
  unfolding recheck
  recheck-done s h =
      let (n, e₁, h₁) = obtain-done _ a.connections_after _ tt h in
      let (e₂, h₂) = ensure-done a.is_live_after _ _ tt h₁ in
      let (e₃, h₃) = ensure-done (n == 0) _ _ tt h₂ in
      let (e₄, h₄) = ensure-done (is_start s.identity.start a.start_after) _ _ tt h₃ in
      let (e₅, h₅) = ensure-done (is_same a.same_socket_after) _ _ tt h₄ in
      let (e₆, h₆) = ensure-done (not a.is_cancelled) _ _ tt h₅ in
      (
        e₁ ∙ ap some ((==_iff n 0).0 e₃),
        e₂,
        is_start-some s.identity.start a.start_after e₄,
        is_same-some a.same_socket_after e₅,
        not-true a.is_cancelled e₆,
        not-true a.is_closed (ensure-done_last (not a.is_closed) _ h₆),
      )

-- A standing that nothing uses.
pub is_busy-false :
    (s : Standing) → is_busy s ≡ false → (s.owners ≡ []) × (s.active ≡ []) × (s.connections ≡ 0)
is_busy-false s h = (
  no-items s.owners (ground arith),
  no-items s.active (ground arith),
  (==_iff s.connections 0).0 (ground arith),
)
  where
    no-items : (xs : List String) → is_none xs ≡ true → xs ≡ []
    no-items [] e = refl
    no-items (x ∷ xs) e = cc

by_launch-identity :
    (identity : AppServerRecord) (command : Bool) (l : Launch) (r : AppServerRecord)
    → by_launch identity command l ≡ done r
    → identity ≡ r
by_launch-identity identity true no_record r h = ap (value_or r) h
by_launch-identity identity false no_record r h = absurd cc
by_launch-identity identity command unreadable r h = absurd cc
by_launch-identity identity command (recorded k) r h = elim (Bool-cases (same_record k identity)) [
  | inl e ↦ let same : done identity ≡ done r = ground (arith, h, e) in ap (value_or r) same
  | inr e ↦ absurd (ground (arith, h, e))
]

-- The process that is to be signalled is the one at the other end of the socket.
pub shutdown_identity-pid :
    (process_start : ℤ → Option String) (self : ℤ) (command : Bool) (l : Launch) (socket : String)
    (pid : ℤ) (r : AppServerRecord)
    → shutdown_identity process_start self command l socket pid ≡ done r
    → (start : String) × (record { pid = pid; start = start; socket = socket } ≡ r)
unfolding shutdown_identity
shutdown_identity-pid process_start self command l socket pid r h =
    elim (Bool-cases (is_low pid || int_eq pid self)) [
      | inl e ↦ absurd (ground (arith, h, e))
      | inr e ↦
          let found : (obtain no_start (process_start pid) >>= λ start.
          by_launch (record { pid = pid; start = start; socket = socket }) command l)
              ≡ done r =
            ground (arith, h, e) in
          let (start, _, whole) = obtain-done _ (process_start pid) _ r found in
          (start, by_launch-identity _ command l r whole)
    ]
