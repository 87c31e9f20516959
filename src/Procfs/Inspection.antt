-- ===== src/Procfs/Inspection.antt =====
-- appserver_connections_linux.go: `linuxAppServerConnections`, the count of the other clients.
use cross_session_codex.Common.{
  ℕ, suc, ◌-◌, ◌^◌, Bool, not, ◌&&◌, ◌||◌, List, [], ◌∷◌, Option, none, some, ltb, ◌==◌,
  if◌then◌else◌, Bytes, codes,
}
use cross_session_codex.Bytes.{same_bytes}
use cross_session_codex.Json.{ℤ}
use cross_session_codex.Numbers.{is_positive}
use cross_session_codex.Path.{is_abs, clean}
use cross_session_codex.Procfs.{Socket, Process, same_map, same_socket, ◌>>=◌, ◌>>◌, require}
use cross_session_codex.Procfs.Sockets.{Snapshot, snapshot_process, Tables, read_sockets}

-- What an inspection meets, in the order of its questions, and whether its context lasts to the end.
pub record Inspection : Type 0 where
  pub before : Snapshot
  pub first : Tables
  pub second : Tables
  pub after : Snapshot
  pub in_time : Bool

abbrev pub is_scope : ℤ → Bytes → Bool
unfolding clean
is_scope pid socket = is_positive pid && is_abs socket && same_bytes (clean socket) socket

-- The two views of the process and of its sockets agree.
abbrev pub is_stable : Process → Process → List (ℕ × Socket) → List (ℕ × Socket) → Bool
is_stable before after first second =
    same_bytes before.start after.start
    && same_bytes before.namespace after.namespace
    && same_map same_bytes same_bytes before.fds after.fds
    && same_map ◌==◌ same_socket first second

abbrev pub is_at : Bytes → Socket → Bool
is_at socket s = same_bytes s.protocol (codes "unix") && same_bytes s.path socket

abbrev pub listens : Socket → Bool
listens s = s.kind == 1 && s.flags == 2 ^ 16 && s.state == 1

abbrev pub is_connected : Socket → Bool
is_connected s = s.kind == 1 && s.flags == 0 && s.state == 3

-- One entry of the inventory, and the listeners and the connected sockets so far.
abbrev pub count_one : Bytes → Socket → ℕ × ℕ → Option (ℕ × ℕ)
count_one socket s (listeners, connected) =
    if not (is_at socket s)
    then some (listeners, connected)
    else if listens s
    then some (suc listeners, connected)
    else if is_connected s
    then some (listeners, suc connected)
    else none

unfoldable pub count_sockets : Bytes → List (ℕ × Socket) → ℕ × ℕ → Option (ℕ × ℕ)
count_sockets socket [] totals = some totals
count_sockets socket ((inode, s) ∷ inventory) totals =
    count_one socket s totals >>= count_sockets socket inventory

-- The inspection's own connection is one of the connected sockets.
abbrev pub others : ℕ × ℕ → Option ℕ
others (listeners, connected) =
    if not (listeners == 1) || ltb connected 1 then none else some (connected - 1)

-- linuxAppServerConnections(ctx, root, pid, socket, read), with the function strconv.Itoa
unfoldable pub linux_connections : (ℤ → Bytes) → ℤ → Bytes → Inspection → Option ℕ
unfolding clean snapshot_process read_sockets count_sockets
linux_connections itoa pid socket i = do
  require (is_scope pid socket)
  before ← snapshot_process (itoa pid) i.before
  first ← read_sockets before.fds i.first
  second ← read_sockets before.fds i.second
  after ← snapshot_process (itoa pid) i.after
  require (is_stable before after first second)
  require i.in_time
  totals ← count_sockets socket first (0, 0)
  others totals
