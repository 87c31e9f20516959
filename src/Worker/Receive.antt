-- ===== src/Worker/Receive.antt =====
-- worker.go: `receive`, which takes every frame of a peer.
use cross_session_codex.Common.{
  text_contains, ℕ, String, Bool, ◌||◌, [], Option, none, some, ◌==◌, str_eq, if◌then◌else◌,
}
use cross_session_codex.Json.{Fields, str}
use cross_session_codex.Peer.{Peer}
use cross_session_codex.Sql.{bad_frame, Sql, ◌>>=◌, ◌>>◌, pure, raise}
use cross_session_codex.Store.{
  Message, State, held, Delivery, dropped, full_queue, relay_loop, same,
}
use cross_session_codex.Store.Admission.{Acceptance, accept}
use cross_session_codex.Store.Outbound.{correlate}
use cross_session_codex.Envelope.{Framed, framed, unframed}
use cross_session_codex.Worker.{
  Node, on_store, look, edit, admission, signal, enqueue_status, drop, reason_text,
}

-- The message with the identity that the socket gives of its sender.
abbrev pub verified : ℕ → String → Message → Message
verified pid start m = record m { verified_peer_pid = pid; verified_peer_start = start }

-- pid == w.pid || strings.Contains(str(m, "hop_chain"), w.address)
abbrev pub is_loop : ℕ → Message → Node → Bool
is_loop pid m n = pid == n.pid || text_contains m.hop_chain n.address

abbrev pub tell_evicted : Option Message → Sql Node (Unit {0})
tell_evicted none = pure tt
tell_evicted (some m) = enqueue_status (some m) dropped (reason_text full_queue) []

-- What follows the answer of the store.
unfoldable pub admitted : Message → State → Acceptance → Sql Node (Unit {0})
unfolding enqueue_status drop edit
admitted m s (Acceptance.refused reason) = drop m reason
admitted m s (Acceptance.taken stored evicted) = do
  tell_evicted evicted
  if same s held
      then enqueue_status (some stored) Delivery.held "" []
      else (do enqueue_status (some stored) Delivery.accepted "" []; signal)

-- `identity` is fmt.Sprintf("%d:%s", pid, start).
module _ (identity : ℕ → String → String) where
  unfoldable pub take_in : Message → ℕ → String → Option State → ℕ → String → Sql Node (Unit {0})
  unfolding enqueue_status admitted on_store accept
  take_in m pid start none now fresh = enqueue_status (some m) Delivery.refused "" []
  take_in m pid start (some s) now fresh = do
    answer ← on_store (accept m (identity pid start) s now fresh)
    admitted m s answer

  -- A decoded message.
  unfoldable pub receive_message : Message → ℕ → String → ℕ → String → Sql Node (Unit {0})
  unfolding take_in drop admission look
  receive_message m pid start now fresh = do
    loop ← look (is_loop pid m)
    if loop
        then drop m relay_loop
        else (do state ← look (λ n. admission n.config m); take_in m pid start state now fresh)

  abbrev pub receive_user : Framed Message → ℕ → String → ℕ → String → Sql Node (Unit {0})
  receive_user (unframed e) pid start now fresh = raise bad_frame
  receive_user (framed m) pid start now fresh =
      receive_message (verified pid start m) pid start now fresh

  -- receive(frame, pid, start); `decode` is decodeUser with the parameters it takes, and
  -- `matches pid start target` is peerReceiptMatches.
  module _ (decode : Fields → Framed Message) (matches : ℕ → String → Peer → Bool) where
    unfoldable pub receive : Fields → ℕ → String → ℕ → String → Sql Node (Unit {0})
    unfolding receive_message str on_store correlate
    receive frame pid start now fresh =
        if str_eq (str frame "type") "control"
        then (if str_eq (str frame "action") "peer_message_status"
            then on_store (correlate (matches pid start) frame)
            else pure tt)
        else receive_user (decode frame) pid start now fresh
