-- ===== src/Procfs/Counted.antt =====
-- What the count of `linuxAppServerConnections` says of the inventory.
use cross_session_codex.Common.{
  ℕ, suc, ◌+◌, ◌-◌, ◌≡◌, ◌↔◌, refl, ap, ◌∙◌, Bool, true, false, not, ◌&&◌, ◌||◌, List, [], ◌∷◌,
  Option, none, some, ltb, ◌==◌, ==_iff, arith, Bool-cases, inl, inr, if◌then◌else◌, Bytes, All,
}
use cross_session_codex.Json.{ℤ}
use cross_session_codex.Procfs.{Socket, Process, bind-some, require-some}
use cross_session_codex.Procfs.Sockets.{snapshot_process, read_sockets}
use cross_session_codex.Procfs.Inspection.{
  Inspection, is_scope, is_stable, is_at, listens, is_connected, count_sockets, others,
  linux_connections,
}

-- How many entries pass a test.
abbrev pub tally : (Socket → Bool) → List (ℕ × Socket) → ℕ
tally p [] = 0
tally p ((inode, s) ∷ inventory) = let rest = tally p inventory in if p s then suc rest else rest

-- An entry at the socket listens or is connected.
abbrev pub Stands : Bytes → ℕ × Socket → Type 0
Stands socket (inode, s) = is_at socket s ≡ true → (listens s || is_connected s) ≡ true

abbrev pub listeners_at : Bytes → Socket → Bool
listeners_at socket s = is_at socket s && listens s

abbrev pub connected_at : Bytes → Socket → Bool
connected_at socket s = is_at socket s && is_connected s

-- The inventory has just the listener, the connection of the inspection and n others.
pub record IsCensus (socket : Bytes) (inventory : List (ℕ × Socket)) (n : ℕ) : Type 0 where
  pub stand_lem : All (Stands socket) inventory
  pub listeners_lem : tally (listeners_at socket) inventory ≡ 1
  pub connected_lem : tally (connected_at socket) inventory ≡ suc n

abbrev Totals : Bytes → List (ℕ × Socket) → ℕ × ℕ → ℕ × ℕ → Type 0
Totals socket inventory (l, c) (a, b) =
    All (Stands socket) inventory
    × (a ≡ l + tally (listeners_at socket) inventory)
    × (b ≡ c + tally (connected_at socket) inventory)

-- A socket that listens is not connected.
not_both : (s : Socket) → listens s ≡ true → is_connected s ≡ false
not_both s h = ground (arith, h, ==_iff s.state 1, ==_iff s.state 3)

pair_eq : {a b c d : ℕ} → a ≡ c → b ≡ d → ◌≡◌ {A = ℕ × ℕ} (a, b) (c, d)
pair_eq e k = cc

count_sockets-Totals :
    (socket : Bytes) (inventory : List (ℕ × Socket)) (l c a b : ℕ)
    → count_sockets socket inventory (l, c) ≡ some (a, b)
    → Totals socket inventory (l, c) (a, b)
unfolding count_sockets
count_sockets-Totals socket [] l c a b h =
    let e : ◌≡◌ {A = ℕ × ℕ} (l, c) (a, b) = cc in
    (tt, omega (arith, ap (λ (t : ℕ × ℕ). t.0) e), omega (arith, ap (λ (t : ℕ × ℕ). t.1) e))
count_sockets-Totals socket ((inode, s) ∷ inventory) l c a b h =
    elim (Bool-cases (is_at socket s)) [
      | inr other ↦
          let (all, x, y) = count_sockets-Totals socket inventory l c a b (rw other at h) in
          rw other ((λ at. absurd cc, all), x, y)
      | inl at ↦ elim (Bool-cases (listens s)) [
        | inl e ↦
            let k : is_connected s ≡ false = not_both s e in
            let (all, x, y) =
              count_sockets-Totals socket inventory (suc l) c a b (rw (at, e) at h) in
            rw (at, e, k) ((λ u. refl, all), omega (arith, x), y)
        | inr e ↦ elim (Bool-cases (is_connected s)) [
          | inl k ↦
              let (all, x, y) =
                count_sockets-Totals socket inventory l (suc c) a b (rw (at, e, k) at h) in
              rw (at, e, k) ((λ u. refl, all), x, omega (arith, y))
          | inr k ↦
              let none_left : ◌≡◌ {A = Option (ℕ × ℕ)} none (some (a, b)) = rw (at, e, k) at h in
              absurd cc
        ]
      ]
    ]

-- An inventory whose entries at the socket all stand is counted.
count_sockets-all :
    (socket : Bytes) (inventory : List (ℕ × Socket)) (l c : ℕ)
    → All (Stands socket) inventory
    → count_sockets socket inventory (l, c)
      ≡ some (l + tally (listeners_at socket) inventory, c + tally (connected_at socket) inventory)
unfolding count_sockets
count_sockets-all socket [] l c h = ap some (pair_eq (omega arith) (omega arith))
count_sockets-all socket ((inode, s) ∷ inventory) l c (h, hs) = elim (Bool-cases (is_at socket s)) [
  | inr other ↦ rw other (count_sockets-all socket inventory l c hs)
  | inl at ↦ elim (Bool-cases (listens s)) [
    | inl e ↦
        rw (at, e, not_both s e)
          (count_sockets-all socket inventory (suc l) c hs ∙ ap some (pair_eq (omega arith) refl))
    | inr e ↦
        let k : is_connected s ≡ true = ground (arith, h at, e) in
        rw (at, e, k)
          (count_sockets-all socket inventory l (suc c) hs ∙ ap some (pair_eq refl (omega arith)))
  ]
]

others_iff : (l c n : ℕ) → (others (l, c) ≡ some n) ↔ ((l ≡ 1) × (c ≡ suc n))
others_iff l c n = (ahead, λ (e, k). back e k)
  where
    ahead : others (l, c) ≡ some n → (l ≡ 1) × (c ≡ suc n)
    ahead h = elim (Bool-cases (not (l == 1) || ltb c 1)) [
      | inl e ↦ let none_left : none ≡ some n = rw e at h in absurd cc
      | inr e ↦
          let k : c - 1 ≡ n = (let whole : some (c - 1) ≡ some n = rw e at h in cc) in
          (ground (arith, e, ==_iff l 1), ground (arith, e, k))
    ]

    back : l ≡ 1 → c ≡ suc n → others (l, c) ≡ some n
    back e k =
        let right : (not (l == 1) || ltb c 1) ≡ false = ground (arith, e, k, ==_iff l 1) in
        rw right (ap some (omega (arith, k)))

-- What stands behind an answer of the whole inspection.
pub record IsVerified (itoa : ℤ → Bytes) (pid : ℤ) (socket : Bytes) (i : Inspection) (n : ℕ)
    : Type 0 where
  pub before : Process
  pub after : Process
  pub inventory : List (ℕ × Socket)
  pub again : List (ℕ × Socket)
  pub scope_lem : is_scope pid socket ≡ true
  pub before_lem : snapshot_process (itoa pid) i.before ≡ some before
  pub first_lem : read_sockets before.fds i.first ≡ some inventory
  pub second_lem : read_sockets before.fds i.second ≡ some again
  pub after_lem : snapshot_process (itoa pid) i.after ≡ some after
  pub stable_lem : is_stable before after inventory again ≡ true
  pub in_time_lem : i.in_time ≡ true
  pub census_lem : IsCensus socket inventory n

-- The inspection answers that the server has n other clients exactly where its scope is sound, both
-- snapshots and both inventories could be read and agree, the context lasted, and the inventory has one
-- listener at the socket, one connection more than n, and no entry there of another kind.
pub linux_connections_iff :
    (itoa : ℤ → Bytes) (pid : ℤ) (socket : Bytes) (i : Inspection) (n : ℕ)
    → (linux_connections itoa pid socket i ≡ some n) ↔ IsVerified itoa pid socket i n
unfolding linux_connections
linux_connections_iff itoa pid socket i n = (ahead, back)
  where
    ahead : linux_connections itoa pid socket i ≡ some n → IsVerified itoa pid socket i n
    ahead h =
        let (scope, h1) = require-some (is_scope pid socket) _ n h in
        let (before, b, h2) = bind-some (snapshot_process (itoa pid) i.before) _ n h1 in
        let (inventory, f, h3) = bind-some (read_sockets before.fds i.first) _ n h2 in
        let (again, s, h4) = bind-some (read_sockets before.fds i.second) _ n h3 in
        let (after, a, h5) = bind-some (snapshot_process (itoa pid) i.after) _ n h4 in
        let (stable, h6) = require-some (is_stable before after inventory again) _ n h5 in
        let (in_time, h7) = require-some i.in_time _ n h6 in
        let ((l, c), t, h8) = bind-some (count_sockets socket inventory (0, 0)) _ n h7 in
        let (all, x, y) = count_sockets-Totals socket inventory 0 0 l c t in
        let (one, more) = (others_iff l c n).0 h8 in
        record {
          before = before;
          after = after;
          inventory = inventory;
          again = again;
          scope_lem = scope;
          before_lem = b;
          first_lem = f;
          second_lem = s;
          after_lem = a;
          stable_lem = stable;
          in_time_lem = in_time;
          census_lem = record {
            stand_lem = all;
            listeners_lem = omega (arith, x, one);
            connected_lem = omega (arith, y, more);
          };
        }

    back : IsVerified itoa pid socket i n → linux_connections itoa pid socket i ≡ some n
    back v =
        let census : IsCensus socket v.inventory n = v.census_lem in
        rw
          (
            v.scope_lem,
            v.before_lem,
            v.first_lem,
            v.second_lem,
            v.after_lem,
            v.stable_lem,
            v.in_time_lem,
            count_sockets-all socket v.inventory 0 0 census.stand_lem,
          )
          ((others_iff (0 + tally (listeners_at socket) v.inventory)
              (0 + tally (connected_at socket) v.inventory) n).1
            (omega (arith, census.listeners_lem), omega (arith, census.connected_lem)))
