-- ===== src/Store/Receipts.antt =====
-- store.go: what a receipt or the result of a socket write may change in an outbound row.
use cross_session_codex.Common.{
  ◌≡◌, refl, ap, ◌∙◌, String, Bool, false, ◌&&◌, List, [], ◌∷◌, Option, none, some, ◌⊎◌, inl, inr,
  arith, str_eq, eq_iff, Bool-cases,
}
use cross_session_codex.Json.{Json, text, obj, Fields, str}
use cross_session_codex.Peer.{Peer}
use cross_session_codex.Sql.{World, World}
use cross_session_codex.Sql.Triple.{Keeps, Keeps-pure, Keeps-if, Keeps-exec, Keeps-bind, Keeps-read}
use cross_session_codex.Store.{Db, Outgoing, Delivery}
use cross_session_codex.Store.Outbound.{
  find_sent, update_sent, receipt, may_replace, receipt_ids, apply_receipt, correlate_one,
  correlate_all, with_receipt, correlate,
}

-- The row of a message, as a lookup by its id shows it.
abbrev pub Shows : String → Outgoing → Db → Type 0
Shows id x db = find_sent id db.outbound ≡ some x

find_sent-update_ne :
    (allowed : Delivery → Bool) (id j : String) (state : Delivery) (detail : Json)
    (xs : List Outgoing)
    → str_eq j id ≡ false
    → find_sent id (update_sent allowed j state detail xs) ≡ find_sent id xs
unfolding find_sent update_sent
find_sent-update_ne allowed id j state detail [] h = refl
find_sent-update_ne allowed id j state detail (x ∷ xs) h = ground (
  arith,
  find_sent-update_ne allowed id j state detail xs h,
  eq_iff x.id id,
  eq_iff x.id j,
  eq_iff j id,
)

module _ (matches : Peer → Bool) (id : String) (x : Outgoing)
    (settled : (matches x.target ≡ false) ⊎ (x.state ≡ Delivery.read)) where
  refuses : (status : Delivery) → (matches x.target && may_replace x.state status) ≡ false
  unfolding may_replace
  refuses status = ground (arith, settled)

  apply_receipt-Shows :
      (status : Delivery) (detail : Json) (j : String) (found : Option Outgoing) (w : World Db)
      → found ≡ find_sent j w.tables.outbound
      → Shows id x w.tables
      → Shows id x (apply_receipt matches status detail j found w).1.tables
  unfolding apply_receipt
  apply_receipt-Shows status detail j none w e s = (Keeps-pure {P = Shows id x} tt).at w s
  apply_receipt-Shows status detail j (some y) w e s = elim (Bool-cases (str_eq j id)) [
    | inl same_id ↦
        let same_row : y ≡ x =
          cc (e, ap (λ k. find_sent k w.tables.outbound) ((eq_iff j id).0 same_id)) in
        (Keeps-if {P = Shows id x} (matches y.target && may_replace y.state status) _ _
            (λ may.
              let never : ⊥ = cc (
                may,
                refuses status,
                ap (λ (r : Outgoing). matches r.target && may_replace r.state status) same_row,
              ) in
              absurd never)
            (λ _. Keeps-pure tt)).at
          w s
    | inr other ↦
        (Keeps-if {P = Shows id x} (matches y.target && may_replace y.state status) _ _
            (λ _.
              Keeps-exec _ (λ db h. find_sent-update_ne _ id j status detail db.outbound other ∙ h))
            (λ _. Keeps-pure tt)).at
          w s
  ]

  correlate_one-Shows :
      (status : Delivery) (detail v : Json)
      → Keeps (Shows id x) (correlate_one matches status detail v)
  unfolding correlate_one
  correlate_one-Shows status detail (text j) =
      Keeps-read _ _ (λ w s. apply_receipt-Shows status detail j _ w refl s)
  correlate_one-Shows status detail _ = Keeps-pure tt

  correlate_all-Shows :
      (status : Delivery) (detail : Json) (vs : List Json)
      → Keeps (Shows id x) (correlate_all matches status detail vs)
  unfolding correlate_all
  correlate_all-Shows status detail [] = Keeps-pure tt
  correlate_all-Shows status detail (v ∷ vs) =
      Keeps-bind _ _ (correlate_one-Shows status detail v)
        (λ _. correlate_all-Shows status detail vs)

correlate-Keeps :
    (matches : Peer → Bool) (id : String) (x : Outgoing) (frame : Fields)
    → (matches x.target ≡ false) ⊎ (x.state ≡ Delivery.read)
    → Keeps (Shows id x) (correlate matches frame)
unfolding correlate
correlate-Keeps matches id x frame settled =
    elim (receipt (str frame "status"))
      as (λ r. Keeps (Shows id x) (with_receipt matches r frame)) [
        | none ↦ Keeps-pure tt
        | some status ↦
            correlate_all-Shows matches id x settled status (obj frame) (receipt_ids frame)
      ]

-- No receipt, whatever it says and whichever statement fails, changes the row of a message that its
-- recipient has acknowledged, nor the row of a message that went to another process than the sender
-- of the receipt.
pub correlate-Shows :
    (matches : Peer → Bool) (id : String) (x : Outgoing) (frame : Fields) (w : World Db)
    → (matches x.target ≡ false) ⊎ (x.state ≡ Delivery.read)
    → find_sent id w.tables.outbound ≡ some x
    → find_sent id (correlate matches frame w).1.tables.outbound ≡ some x
correlate-Shows matches id x frame w settled h = (correlate-Keeps matches id x frame settled).at w h
