-- ===== src/Worker/Operations.antt =====
-- worker.go: every operation of a worker keeps it sound, whichever statement fails.
use cross_session_codex.Common.{
  ℕ, ◌≡◌, refl, String, Bool, false, List, [], ◌∷◌, Option, none, some, str_eq,
}
use cross_session_codex.Json.{Json, Fields, str, null}
use cross_session_codex.Peer.{Peer}
use cross_session_codex.Sql.{World}
use cross_session_codex.Sql.Triple.{Keeps, Keeps-pure, Keeps-bind, Keeps-if}
use cross_session_codex.Sql.Keeping.{Keeps-raise, Keeps-lift}
use cross_session_codex.Store.{Message, State, held, Delivery, relay_loop, same}
use cross_session_codex.Store.Admission.{Acceptance}
use cross_session_codex.Store.Transition.{transition_tx}
use cross_session_codex.Store.Capacity.{accept-Keeps}
use cross_session_codex.Store.Moves.{transition_tx-Keeps, IsValid-OnlyInbox}
use cross_session_codex.Store.Steady.{
  get_message-Keeps, outgoing-Keeps, sent-Keeps, correlate-Keeps,
}
use cross_session_codex.Envelope.{Framed, framed, unframed}
use cross_session_codex.Config.{Config}
use cross_session_codex.Worker.{Node, on_store}
use cross_session_codex.Worker.Receive.{
  tell_evicted, admitted, take_in, receive_message, receive_user, receive,
}
use cross_session_codex.Worker.Commands.{
  Verdict, ack, release, decline, from_state, to_state, told, tell_changed, decide_ids, decide,
  inbox_ids, written, send_frame, send_to, sender_of, reply,
}
use cross_session_codex.Worker.Soundness.{
  IsSound, Keeps-on_store, Keeps-look, enqueue_status-IsSound, drop-IsSound, signal-IsSound,
}

pub move-IsSound :
    (ids : List String) (before after : State)
    → same after held ≡ false
    → Keeps IsSound (on_store (transition_tx ids before after))
move-IsSound ids before after e = Keeps-on_store _ (transition_tx-Keeps ids before after e)

tell_evicted-IsSound : (o : Option Message) → Keeps IsSound (tell_evicted o)
tell_evicted-IsSound none = Keeps-pure tt
tell_evicted-IsSound (some m) = enqueue_status-IsSound _ _ _ _

admitted-IsSound : (m : Message) (s : State) (a : Acceptance) → Keeps IsSound (admitted m s a)
unfolding admitted
admitted-IsSound m s (Acceptance.refused reason) = drop-IsSound m reason
admitted-IsSound m s (Acceptance.taken stored evicted) =
    Keeps-bind _ _ (tell_evicted-IsSound evicted) (λ _.
      Keeps-if (same s held) _ _ (λ _. enqueue_status-IsSound _ _ _ _)
        (λ _. Keeps-bind _ _ (enqueue_status-IsSound _ _ _ _) (λ _. signal-IsSound)))

module _ (identity : ℕ → String → String) where
  take_in-IsSound :
      (m : Message) (pid : ℕ) (start : String) (s : Option State) (now : ℕ) (fresh : String)
      → Keeps IsSound (take_in identity m pid start s now fresh)
  unfolding take_in
  take_in-IsSound m pid start none now fresh = enqueue_status-IsSound _ _ _ _
  take_in-IsSound m pid start (some s) now fresh =
      Keeps-bind _ _ (Keeps-on_store _ (accept-Keeps m (identity pid start) s now fresh))
        (λ a. admitted-IsSound m s a)

  receive_message-IsSound :
      (m : Message) (pid : ℕ) (start : String) (now : ℕ) (fresh : String)
      → Keeps IsSound (receive_message identity m pid start now fresh)
  unfolding receive_message
  receive_message-IsSound m pid start now fresh = Keeps-bind _ _ (Keeps-look _) (λ loop.
      Keeps-if loop _ _ (λ _. drop-IsSound m relay_loop)
        (λ _. Keeps-bind _ _ (Keeps-look _) (λ s. take_in-IsSound m pid start s now fresh)))

  receive_user-IsSound :
      (d : Framed Message) (pid : ℕ) (start : String) (now : ℕ) (fresh : String)
      → Keeps IsSound (receive_user identity d pid start now fresh)
  receive_user-IsSound (unframed e) pid start now fresh = Keeps-raise _
  receive_user-IsSound (framed m) pid start now fresh =
      receive_message-IsSound _ pid start now fresh

  receive-Keeps :
      (decode : Fields → Framed Message) (matches : ℕ → String → Peer → Bool) (frame : Fields)
      (pid : ℕ) (start : String) (now : ℕ) (fresh : String)
      → Keeps IsSound (receive identity decode matches frame pid start now fresh)
  unfolding receive
  receive-Keeps decode matches frame pid start now fresh =
      Keeps-if (str_eq (str frame "type") "control") _ _
        (λ _.
          Keeps-if (str_eq (str frame "action") "peer_message_status") _ _
            (λ _. Keeps-on_store _ (correlate-Keeps IsValid-OnlyInbox (matches pid start) frame))
            (λ _. Keeps-pure tt))
        (λ _. receive_user-IsSound (decode frame) pid start now fresh)

-- Whatever frame a peer sends and whichever statement fails, the worker stays sound: the inbox valid
-- and within its limits, and the pending statuses and drop reports within theirs.
pub receive-IsSound :
    (identity : ℕ → String → String) (decode : Fields → Framed Message)
    (matches : ℕ → String → Peer → Bool) (frame : Fields) (pid : ℕ) (start : String) (now : ℕ)
    (fresh : String) (w : World Node)
    → IsSound w.tables
    → IsSound (receive identity decode matches frame pid start now fresh w).1.tables
receive-IsSound identity decode matches frame pid start now fresh w s =
    (receive-Keeps identity decode matches frame pid start now fresh).at w s

tell_changed-IsSound : (d : Delivery) (ids : List String) → Keeps IsSound (tell_changed d ids)
unfolding tell_changed
tell_changed-IsSound d [] = Keeps-pure tt
tell_changed-IsSound d (id ∷ ids) =
    Keeps-bind _ _ (Keeps-on_store _ (get_message-Keeps id))
      (λ m. Keeps-bind _ _ (enqueue_status-IsSound _ _ _ _) (λ _. tell_changed-IsSound d ids))

to_state-open : (v : Verdict) → same (to_state v) held ≡ false
to_state-open ack = refl
to_state-open release = refl
to_state-open decline = refl

decide_ids-IsSound : (v : Verdict) (ids : Option (List String)) → Keeps IsSound (decide_ids v ids)
unfolding decide_ids
decide_ids-IsSound v none = Keeps-raise _
decide_ids-IsSound v (some ids) =
    Keeps-bind _ _ (move-IsSound ids (from_state v) (to_state v) (to_state-open v)) (λ changed.
      Keeps-bind _ _ (tell_changed-IsSound (told v) changed)
        (λ _. Keeps-bind _ _ signal-IsSound (λ _. Keeps-pure changed)))

decide-Keeps : (v : Verdict) (args : Fields) → Keeps IsSound (decide v args)
unfolding decide
decide-Keeps v args = decide_ids-IsSound v (inbox_ids args)

-- The acknowledgement, the release and the refusal of messages keep the worker sound, whatever the
-- arguments are and whichever statement fails.
pub decide-IsSound :
    (v : Verdict) (args : Fields) (w : World Node)
    → IsSound w.tables
    → IsSound (decide v args w).1.tables
decide-IsSound v args w s = (decide-Keeps v args).at w s

module _ (write : Peer → Fields → Option Json) where
  written-IsSound : (id : String) (o : Option Json) → Keeps IsSound (written write id o)
  written-IsSound id none =
      Keeps-bind _ _ (Keeps-on_store _ (sent-Keeps IsValid-OnlyInbox id _ null))
        (λ _. Keeps-pure id)
  written-IsSound id (some detail) =
      Keeps-bind _ _ (Keeps-on_store _ (sent-Keeps IsValid-OnlyInbox id _ detail))
        (λ _. Keeps-raise _)

  send_frame-IsSound :
      (target : Peer) (now : ℕ) (f : Framed Fields) → Keeps IsSound (send_frame write target now f)
  send_frame-IsSound target now (unframed e) = Keeps-raise _
  send_frame-IsSound target now (framed f) =
      Keeps-bind _ _
        (Keeps-on_store _ (outgoing-Keeps IsValid-OnlyInbox (str f "msg_id") now target))
        (λ _. written-IsSound (str f "msg_id") (write target f))

  pub send_to-IsSound :
      (frame : Config → String → Framed Fields) (target : Option Peer) (now : ℕ)
      → Keeps IsSound (send_to write frame target now)
  unfolding send_to
  send_to-IsSound frame none now = Keeps-raise _
  send_to-IsSound frame (some target) now = Keeps-bind _ _ (Keeps-look _) (λ own.
      Keeps-if own _ _ (λ _. Keeps-raise _)
        (λ _. Keeps-bind _ _ (Keeps-look _) (λ f. send_frame-IsSound target now f)))

  pub reply-IsSound :
      (frame : Config → String → Framed Fields) (reply_target : Json → Option Peer) (id : String)
      (now : ℕ)
      → Keeps IsSound (reply write frame reply_target id now)
  unfolding reply
  reply-IsSound frame reply_target id now =
      Keeps-bind _ _ (Keeps-on_store _ (get_message-Keeps id)) (λ m.
        Keeps-bind _ _ (Keeps-lift (sender_of write reply_target m))
          (λ target. send_to-IsSound frame target now))
