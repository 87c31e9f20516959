-- ===== src/Worker/Commands.antt =====
-- worker.go: the operations of the control socket that change the inbox, send a message or configure
-- the worker. What discovery, sockets and files do is a parameter.
use cross_session_codex.Common.{ℕ, String, List, [], ◌∷◌, Option, none, some, ltb, if◌then◌else◌}
use cross_session_codex.Json.{pos, Json, arr, text, null, Items, end, item, Fields, get, str}
use cross_session_codex.Numbers.{int_eq}
use cross_session_codex.Peer.{Peer}
use cross_session_codex.Sql.{
  Result, ok, err, bad_frame, bad_arguments, unknown_message, no_target, same_peer, not_sent, Sql,
  ◌>>=◌, ◌>>◌, pure, raise, lift,
}
use cross_session_codex.Store.{
  Row, Message, State, unread, held, Delivery, released, failed, sent_unconfirmed,
}
use cross_session_codex.Store.Rows.{get_message}
use cross_session_codex.Store.Transition.{transition_tx}
use cross_session_codex.Store.Outbound.{outgoing, sent}
use cross_session_codex.Envelope.{Framed, framed, unframed}
use cross_session_codex.Config.{Config}
use cross_session_codex.Worker.{Node, on_store, look, edit, signal, enqueue_status}

-- inboxIDs(args): an array of at most 100 texts
abbrev and_id : Json → Option (List String) → Option (List String)
and_id (text s) (some ids) = some (s ∷ ids)
and_id _ _ = none

unfoldable pub texts : Items → Option (List String)
texts end = some []
texts (item v vs) = and_id v (texts vs)

abbrev pub size : Items → ℕ
size end = 0
size (item v vs) = ℕ.suc (size vs)

abbrev pub ids_in : Json → Option (List String)
ids_in (arr vs) = if ltb 100 (size vs) then none else texts vs
ids_in _ = none

unfoldable pub inbox_ids : Fields → Option (List String)
unfolding texts get
inbox_ids args = ids_in (get args "ids")

-- The operations "ack", "release" and "decline", with what they move and what they tell the sender.
pub data Verdict : Type 0 where
  ack release decline : Verdict

abbrev pub from_state : Verdict → State
from_state ack = unread
from_state _ = held

abbrev pub to_state : Verdict → State
to_state ack = State.read
to_state release = unread
to_state decline = State.declined

abbrev pub told : Verdict → Delivery
told ack = Delivery.read
told release = released
told decline = Delivery.declined

-- The loop over the changed ids.
abbrev content_of : Option Row → Option Message
content_of none = none
content_of (some x) = some x.content

unfoldable pub tell_changed : Delivery → List String → Sql Node (Unit {0})
unfolding enqueue_status on_store get_message
tell_changed status [] = pure tt
tell_changed status (id ∷ ids) = do
  m ← on_store (get_message id)
  enqueue_status (content_of m) status "" []
  tell_changed status ids

unfoldable pub decide_ids : Verdict → Option (List String) → Sql Node (List String)
unfolding on_store transition_tx tell_changed edit
decide_ids v none = raise bad_arguments
decide_ids v (some ids) = do
  changed ← on_store (transition_tx ids (from_state v) (to_state v))
  tell_changed (told v) changed
  signal
  pure changed

-- operation(args) for "ack", "release" and "decline"
unfoldable pub decide : Verdict → Fields → Sql Node (List String)
unfolding inbox_ids decide_ids
decide v args = decide_ids v (inbox_ids args)

-- Sending: `write` is sendFrame with the error it returns, `frame` is userFrame.
module _ (write : Peer → Fields → Option Json) where
  abbrev pub written : String → Option Json → Sql Node String
  written id none = do on_store (sent id sent_unconfirmed null); pure id
  written id (some detail) = do on_store (sent id failed detail); raise not_sent

  abbrev pub send_frame : Peer → ℕ → Framed Fields → Sql Node String
  send_frame target now (unframed e) = raise bad_frame
  send_frame target now (framed f) = do
    on_store (outgoing (str f "msg_id") now target)
    written (str f "msg_id") (write target f)

  -- What "send" and "reply" have in common, from the target on.
  unfoldable pub send_to : (Config → String → Framed Fields) → Option Peer → ℕ → Sql Node String
  unfolding on_store outgoing sent str look
  send_to frame none now = raise no_target
  send_to frame (some target) now = do
    own ← look (λ n. int_eq target.pid (pos n.pid))
    if own
        then raise same_peer
        else (do f ← look (λ n. frame n.config n.address); send_frame target now f)

  -- The target of "reply", from the stored message; `reply_target` is replyTarget.
  abbrev pub sender_of : (Json → Option Peer) → Option Row → Result (Option Peer)
  sender_of reply_target none = err unknown_message
  sender_of reply_target (some x) = ok (reply_target x.content.sender)

  unfoldable pub reply :
      (Config → String → Framed Fields) → (Json → Option Peer) → String → ℕ → Sql Node String
  unfolding send_to get_message on_store
  reply frame reply_target id now = do
    m ← on_store (get_message id)
    target ← lift (sender_of reply_target m)
    send_to frame target now
