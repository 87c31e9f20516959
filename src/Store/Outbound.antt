-- ===== src/Store/Outbound.antt =====
-- store.go: `Outgoing`, `Sent`, `SentStatus` and `Correlate`: the messages that went out, and what
-- receipts say of them.
use cross_session_codex.Common.{
  ℕ, String, Bool, true, false, not, ◌&&◌, ◌||◌, List, [], ◌∷◌, ◌++◌, Option, none, some, ◌==◌,
  str_eq, if◌then◌else◌, take, select,
}
use cross_session_codex.Json.{Json, null, text, arr, obj, Fields, get, str, to_list}
use cross_session_codex.Peer.{Peer}
use cross_session_codex.Sql.{ok, err, Sql, constraint, pure, statement, query, exec, ◌>>=◌, ◌>>◌}
use cross_session_codex.Store.{
  Db, Delivery, Outgoing, sending, sent_unconfirmed, failed, released, refused, dropped, accepted,
}
use cross_session_codex.Store.Expiry.{sort_desc}

abbrev delivery_code : Delivery → ℕ
delivery_code sending = 0
delivery_code sent_unconfirmed = 1
delivery_code failed = 2
delivery_code Delivery.held = 3
delivery_code Delivery.declined = 4
delivery_code Delivery.expired = 5
delivery_code released = 6
delivery_code refused = 7
delivery_code dropped = 8
delivery_code accepted = 9
delivery_code Delivery.read = 10

abbrev pub same_delivery : Delivery → Delivery → Bool
same_delivery a b = delivery_code a == delivery_code b

unfoldable pub find_sent : String → List Outgoing → Option Outgoing
find_sent id [] = none
find_sent id (x ∷ xs) = if str_eq x.id id then some x else find_sent id xs

abbrev pub is_some : {A : Type 0} → Option A → Bool
is_some none = false
is_some (some a) = true

-- Outgoing(frame, target), by the frame's msg_id: INSERT INTO outbound VALUES (?,?,?,?,?)
unfoldable pub outgoing : String → ℕ → Peer → Sql Db Unit
unfolding find_sent
outgoing id now target = statement (λ db.
    if is_some (find_sent id db.outbound) then (err constraint, db) else (
      ok tt,
      record db {
        outbound =
            db.outbound
            ++ record { id = id; created = now; target = target; state = sending; detail = null }
              ∷ [];
      },
    ))

abbrev pub in_flight : Delivery → Bool
in_flight d = same_delivery d sending || same_delivery d sent_unconfirmed

-- The clause that keeps a result of the socket write from replacing a receipt.
abbrev pub may_set : Delivery → Delivery → Bool
may_set state current =
    not (same_delivery state sent_unconfirmed || same_delivery state failed) || in_flight current

unfoldable pub update_sent :
    (Delivery → Bool) → String → Delivery → Json → List Outgoing → List Outgoing
update_sent allowed id state detail [] = []
update_sent allowed id state detail (x ∷ xs) =
    (if str_eq x.id id && allowed x.state then record x { state = state; detail = detail } else x)
    ∷ update_sent allowed id state detail xs

-- Sent(id, state, detail)
unfoldable pub sent : String → Delivery → Json → Sql Db Unit
unfolding update_sent
sent id state detail =
    exec (λ db. record db { outbound = update_sent (may_set state) id state detail db.outbound })

-- SentStatus(id)
unfoldable pub sent_status : String → Sql Db (List Outgoing)
unfolding select sort_desc
sent_status id =
    if str_eq id ""
    then query (λ db. take 20 (sort_desc (λ (x : Outgoing). x.created) db.outbound))
    else query (λ db. select (λ (x : Outgoing). str_eq x.id id) db.outbound)

-- The statuses that a receipt may carry.
unfoldable pub receipt : String → Option Delivery
receipt s =
    if str_eq s "held"
    then some Delivery.held
    else if str_eq s "declined"
    then some Delivery.declined
    else if str_eq s "expired"
    then some Delivery.expired
    else if str_eq s "released"
    then some released
    else if str_eq s "refused"
    then some refused
    else if str_eq s "dropped"
    then some dropped
    else if str_eq s "accepted"
    then some accepted
    else if str_eq s "read"
    then some Delivery.read
    else none

-- An acknowledgement is terminal, and an acceptance replaces no later receipt.
unfoldable pub may_replace : Delivery → Delivery → Bool
may_replace current status =
    if same_delivery current Delivery.read
    then false
    else if same_delivery status accepted
    then in_flight current || same_delivery current Delivery.held || same_delivery current released
    else true

abbrev dropped_ids : Json → List Json
dropped_ids (arr vs) = to_list vs
dropped_ids _ = []

-- ids := orig_msg_id and the dropped_msg_ids, at most 101 of them
unfoldable pub receipt_ids : Fields → List Json
unfolding get
receipt_ids frame = take 101 (get frame "orig_msg_id" ∷ dropped_ids (get frame "dropped_msg_ids"))

-- `matches target` is peerReceiptMatches(target, pid, start).
module _ (matches : Peer → Bool) where
  unfoldable pub apply_receipt : Delivery → Json → String → Option Outgoing → Sql Db Unit
  unfolding may_replace update_sent
  apply_receipt status detail id none = pure tt
  apply_receipt status detail id (some x) =
      if matches x.target && may_replace x.state status
      then exec
          (λ db. record db { outbound = update_sent (λ _. true) id status detail db.outbound })
      else pure tt

  -- One round of the loop over the ids; an id that is no text is passed over.
  unfoldable pub correlate_one : Delivery → Json → Json → Sql Db Unit
  unfolding apply_receipt find_sent
  correlate_one status detail (text id) = do
    found ← query (λ db. find_sent id db.outbound)
    apply_receipt status detail id found
  correlate_one status detail _ = pure tt

  unfoldable pub correlate_all : Delivery → Json → List Json → Sql Db Unit
  unfolding correlate_one
  correlate_all status detail [] = pure tt
  correlate_all status detail (v ∷ vs) = do
    correlate_one status detail v
    correlate_all status detail vs

  abbrev pub with_receipt : Option Delivery → Fields → Sql Db Unit
  with_receipt none frame = pure tt
  with_receipt (some status) frame = correlate_all status (obj frame) (receipt_ids frame)

  -- Correlate(frame, pid, start)
  unfoldable pub correlate : Fields → Sql Db Unit
  unfolding correlate_all receipt receipt_ids str
  correlate frame = with_receipt (receipt (str frame "status")) frame
