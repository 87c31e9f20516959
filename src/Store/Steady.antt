-- ===== src/Store/Steady.antt =====
-- store.go: the methods that do not move a message leave the inbox alone, so that they keep what holds
-- of it, whichever statement fails.
use cross_session_codex.Common.{
  ℕ, ◌≡◌, refl, ◌==◌, ◌&&◌, ◌||◌, String, Bool, true, not, List, [], ◌∷◌, Option, none, some,
  str_eq, Bool-cases, inl, inr,
}
use cross_session_codex.Json.{Json, text, obj, Fields, str}
use cross_session_codex.Peer.{Peer}
use cross_session_codex.Sql.{Error, exec}
use cross_session_codex.Sql.Triple.{
  Keeps, Keeps-pure, Keeps-if, Keeps-exec, Keeps-bind, Keeps-statement, Keeps-transact, Triple-bind,
  Triple-pure, Triple-if, Triple-query, Triple-exec, Triple-raise, Invariant,
}
use cross_session_codex.Sql.Keeping.{Keeps-query, Keeps-raise}
use cross_session_codex.Store.{Db, State, unread, Delivery, Outgoing, Wake, WakeState, rejected}
use cross_session_codex.Store.Rows.{count, cursor, get_message, read_rows, or_raise}
use cross_session_codex.Store.Outbound.{
  outgoing, sent, is_some, find_sent, apply_receipt, may_replace, correlate_one, correlate_all,
  with_receipt, correlate, receipt, receipt_ids, update_sent,
}
use cross_session_codex.Store.Notice.{
  begin_wake, finish_wake, finished, wake_id, same_wake, reset_delivery, is_some as has_wake,
}
use cross_session_codex.Store.Capacity.{Triple-count}
use cross_session_codex.Store.Moves.{OnlyInbox}

module _ {P : Db → Type 0} where
  or_raise-Keeps : {A : Type 0} (e : Error) (o : Option A) → Keeps P (or_raise e o)
  or_raise-Keeps e none = Keeps-raise e
  or_raise-Keeps e (some a) = Keeps-pure a

  cursor-Keeps : (after : String) → Keeps P (cursor after)
  unfolding cursor
  cursor-Keeps after =
      Keeps-if (str_eq after "") _ _ (λ _. Keeps-pure 0)
        (λ _. Keeps-bind _ _ (Keeps-query _) (λ found. or_raise-Keeps _ found))

  pub count-Keeps : (s : State) (after : String) → Keeps P (count s after)
  unfolding count
  count-Keeps s after = Keeps-bind _ _ (cursor-Keeps after) (λ row. Keeps-query _)

  pub read_rows-Keeps : (s : State) (after : String) (limit : ℕ) → Keeps P (read_rows s after limit)
  unfolding read_rows
  read_rows-Keeps s after limit = Keeps-bind _ _ (cursor-Keeps after) (λ row. Keeps-query _)

  pub get_message-Keeps : (id : String) → Keeps P (get_message id)
  unfolding get_message
  get_message-Keeps id = Keeps-query _

module _ {P : Db → Type 0} (only : OnlyInbox P) where
  pub outgoing-Keeps : (id : String) (now : ℕ) (target : Peer) → Keeps P (outgoing id now target)
  unfolding outgoing
  outgoing-Keeps id now target = Keeps-statement _ (λ db p.
      elim (Bool-cases (is_some (find_sent id db.outbound))) [
        | inl e ↦ rw e p
        | inr e ↦ rw e (only db _ refl p)
      ])

  pub sent-Keeps : (id : String) (state : Delivery) (detail : Json) → Keeps P (sent id state detail)
  unfolding sent
  sent-Keeps id state detail = Keeps-exec _ (λ db p. only db _ refl p)

  pub exec-Keeps : (f : Db → Db) → ((db : Db) → (f db).inbox ≡ db.inbox) → Keeps P (exec f)
  exec-Keeps f same_inbox = Keeps-exec f (λ db p. only db _ (same_inbox db) p)

  module _ (matches : Peer → Bool) where
    apply_receipt-Keeps :
        (status : Delivery) (detail : Json) (id : String) (found : Option Outgoing)
        → Keeps P (apply_receipt matches status detail id found)
    unfolding apply_receipt
    apply_receipt-Keeps status detail id none = Keeps-pure tt
    apply_receipt-Keeps status detail id (some x) =
        Keeps-if (matches x.target && may_replace x.state status) _ _
          (λ _.
            exec-Keeps
              (λ db. record db { outbound = update_sent (λ _. true) id status detail db.outbound })
              (λ db. refl))
          (λ _. Keeps-pure tt)

    correlate_one-Keeps :
        (status : Delivery) (detail v : Json) → Keeps P (correlate_one matches status detail v)
    unfolding correlate_one
    correlate_one-Keeps status detail (text id) =
        Keeps-bind _ _ (Keeps-query _) (λ found. apply_receipt-Keeps status detail id found)
    correlate_one-Keeps status detail _ = Keeps-pure tt

    correlate_all-Keeps :
        (status : Delivery) (detail : Json) (vs : List Json)
        → Keeps P (correlate_all matches status detail vs)
    unfolding correlate_all
    correlate_all-Keeps status detail [] = Keeps-pure tt
    correlate_all-Keeps status detail (v ∷ vs) =
        Keeps-bind _ _ (correlate_one-Keeps status detail v)
          (λ _. correlate_all-Keeps status detail vs)

    with_receipt-Keeps :
        (r : Option Delivery) (frame : Fields) → Keeps P (with_receipt matches r frame)
    with_receipt-Keeps none frame = Keeps-pure tt
    with_receipt-Keeps (some status) frame =
        correlate_all-Keeps status (obj frame) (receipt_ids frame)

    pub correlate-Keeps : (frame : Fields) → Keeps P (correlate matches frame)
    unfolding correlate
    correlate-Keeps frame = with_receipt-Keeps (receipt (str frame "status")) frame

  pub begin_wake-Keeps : (id : String) (now : ℕ) → Keeps P (begin_wake id now)
  unfolding begin_wake
  begin_wake-Keeps id now = Keeps-transact _ (
      Triple-bind (λ _. P) _ _ (Triple-query _ (λ db h. h))
        λ existing.
          Triple-bind (λ _. P) _ _ (Triple-count unread (λ db h. h))
            λ n.
              Triple-if (n == 0 || has_wake existing) _ _ (λ _. Triple-pure _ (λ db h. h))
                λ _.
                  Triple-bind (λ _. P) _ _ (Triple-query _ (λ db h. h))
                    λ rev.
                      Triple-bind (λ _. P) _ _ (Triple-exec _ (λ db h. only db _ refl h))
                        λ _. Triple-pure _ (λ db h. h))

  finished-Invariant :
      (state : WakeState) (detail : String) (n rev : ℕ) (wake : Option Wake)
      → Invariant P (finished state detail n rev wake)
  unfolding finished
  finished-Invariant state detail n rev none =
      Triple-if (same_wake state rejected) _ _ (λ _. Triple-pure _ (λ db h. h))
        (λ _. Triple-raise _)
  finished-Invariant state detail n rev (some w) =
      Triple-if (same_wake state rejected) _ _ (λ _. Triple-pure _ (λ db h. h))
        (λ _. Triple-pure _ (λ db h. h))

  pub finish_wake-Keeps :
      (id : String) (state : WakeState) (detail : String) → Keeps P (finish_wake id state detail)
  unfolding finish_wake
  finish_wake-Keeps id state detail = Keeps-transact _ (
      Triple-bind (λ _. P) _ _ (Triple-query _ (λ db h. h))
        λ wake.
          Triple-if (not (str_eq (wake_id wake) id)) _ _ (λ _. Triple-pure _ (λ db h. h))
            λ _.
              Triple-bind (λ _. P) _ _ (Triple-query _ (λ db h. h))
                λ rev.
                  Triple-bind (λ _. P) _ _ (Triple-count unread (λ db h. h))
                    λ n.
                      Triple-bind (λ _. P) _ _ (finished-Invariant state detail n rev wake)
                        λ next.
                          Triple-bind (λ _. P) _ _ (Triple-exec _ (λ db h. only db _ refl h))
                            λ _. Triple-pure _ (λ db h. h))

  pub reset_delivery-Keeps : Keeps P reset_delivery
  unfolding reset_delivery
  reset_delivery-Keeps = Keeps-transact _ (
      Triple-bind (λ _. P) _ _ (Triple-query _ (λ db h. h))
        λ wake.
          Triple-if (has_wake wake) _ _ (λ _. Triple-raise _)
            λ _.
              Triple-bind (λ _. P) _ _ (Triple-exec _ (λ db h. only db _ refl h))
                λ _.
                  Triple-bind (λ _. P) _ _ (Triple-exec _ (λ db h. only db _ refl h))
                    λ _.
                      Triple-bind (λ _. P) _ _ (Triple-exec _ (λ db h. only db _ refl h))
                        λ _. Triple-pure _ (λ db h. h))
