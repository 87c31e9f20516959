-- ===== src/Store/Wakes.antt =====
-- store.go: the notice in `metadata`: when it is made, and when it goes.
use cross_session_codex.Common.{
  ℕ, ◌+◌, ◌≡◌, ◌≢◌, refl, ap, ◌∙◌, String, false, ◌&&◌, ◌||◌, not, List, [], ◌∷◌, Option, none,
  some, arith, ltb, ◌==◌, str_eq, inl, inr, Bool-cases, contains,
}
use cross_session_codex.Sql.{World, World, pure, raise, nil_map, pending_notice, inbox_full}
use cross_session_codex.Sql.Triple.{
  Triple, Keeps, Invariant, Triple-pure, Triple-raise, Triple-query, Triple-exec, Triple-if,
  Triple-bind, Triple-fact, Triple-insert, Keeps-transact,
}
use cross_session_codex.Store.{
  Db, State, unread, held, expired, same, Wake, WakeState, attempted, submitted, recorded,
  uncertain, rejected,
}
use cross_session_codex.Store.Transition.{
  is_settled, is_empty, acknowledge, clear_notice, transition, transition_tx, move_all, move,
  check_room, releasing,
}
use cross_session_codex.Store.Expiry.{expire}
use cross_session_codex.Store.Purge.{read_rows-Invariant}
use cross_session_codex.Store.Notice.{
  new_wake, begin_wake, same_wake, update_wake, settle_wake, finished, finish_wake, reset_delivery,
  is_some, wake_id,
}
use cross_session_codex.Store.Capacity.{Triple-count}

-- A pending notice waits for a user exactly while its fate is unknown, and is never a rejected one.
abbrev pub Coherent : Option Wake → Type 0
Coherent none = Unit
Coherent (some w) =
    (w.submitted ≡ (same_wake w.state submitted || same_wake w.state recorded))
    × (w.needs_manual_action ≡ (same_wake w.state uncertain || same_wake w.state attempted))
    × (w.state ≢ rejected)

abbrev pub IsCoherent : Db → Type 0
IsCoherent db = Coherent db.metadata.wake

begin_wake-Keeps :
    (id : String) (now : ℕ) (db0 : Db) (v : Wake)
    → db0.metadata.wake ≡ some v
    → Keeps (λ db. db ≡ db0) (begin_wake id now)
unfolding begin_wake
begin_wake-Keeps id now db0 v e = Keeps-transact _ (
    Triple-bind (λ o db. (db ≡ db0) × (o ≡ some v)) _ _
      (Triple-query _ (λ db h. (h, ap (λ (t : Db). t.metadata.wake) h ∙ e)))
      λ o. Triple-fact (o ≡ some v) _ λ pending.
        Triple-bind (λ _ db. db ≡ db0) _ _ (Triple-count unread (λ db h. h))
          λ n.
            Triple-if (n == 0 || is_some o) _ _ (λ _. Triple-pure _ (λ db h. h))
              λ free. absurd (ground (arith, pending, free)))

-- While a notice is pending `BeginWake` makes no other one: a write that may have succeeded is
-- never repeated. It leaves every table as it was, whichever statement fails.
begin_wake-pending :
    (id : String) (now : ℕ) (v : Wake) (w : World Db)
    → w.tables.metadata.wake ≡ some v
    → (begin_wake id now w).1.tables ≡ w.tables
begin_wake-pending id now v w e = (begin_wake-Keeps id now w.tables v e).at w refl

begin_wake-IsCoherent : (id : String) (now : ℕ) → Keeps IsCoherent (begin_wake id now)
unfolding begin_wake new_wake
begin_wake-IsCoherent id now = Keeps-transact _ (
    Triple-bind (λ _. IsCoherent) _ _ (Triple-query _ (λ db h. h))
      λ existing.
        Triple-bind (λ _. IsCoherent) _ _ (Triple-count unread (λ db h. h))
          λ n.
            Triple-if (n == 0 || is_some existing) _ _ (λ _. Triple-pure _ (λ db h. h))
              λ _.
                Triple-bind (λ _. IsCoherent) _ _ (Triple-query _ (λ db h. h))
                  λ rev.
                    Triple-bind (λ _. IsCoherent) _ _
                      (Triple-exec _ (λ db h. (refl, refl, λ e. cc)))
                      λ _. Triple-pure _ (λ db h. h))

finished-Coherent :
    (state : WakeState) (detail : String) (n rev : ℕ) (wake : Option Wake)
    → Triple IsCoherent (finished state detail n rev wake) (λ next db. Coherent next)
unfolding finished update_wake settle_wake
finished-Coherent state detail n rev wake =
    Triple-if (same_wake state rejected) _ _ (λ _. Triple-pure none (λ db h. tt))
      λ kept.
        elim wake
          as (λ o.
            Triple IsCoherent
              (elim o [
                | none ↦ raise nil_map
                | some w ↦ pure (settle_wake n rev (update_wake state detail w))
              ])
              (λ next db. Coherent next)) [
                | none ↦ Triple-raise nil_map
                | some w ↦ Triple-pure _ (λ db h. settled w kept)
              ]
  where
    settled :
        (w : Wake)
        → same_wake state rejected ≡ false
        → Coherent (settle_wake n rev (update_wake state detail w))
    settled w kept =
        elim (Bool-cases (
          n == 0
          || ((same_wake state submitted || same_wake state recorded)
              && not (w.ack_revision == rev)))) [
                | inl e ↦ rw e tt
                | inr e ↦ rw e (refl, refl, λ r. ground (arith, kept, r))
              ]

finish_wake-IsCoherent :
    (id : String) (state : WakeState) (detail : String)
    → Keeps IsCoherent (finish_wake id state detail)
unfolding finish_wake
finish_wake-IsCoherent id state detail = Keeps-transact _ (
    Triple-bind (λ _. IsCoherent) _ _ (Triple-query _ (λ db h. h))
      λ wake.
        Triple-if (not (str_eq (wake_id wake) id)) _ _ (λ _. Triple-pure _ (λ db h. h))
          λ _.
            Triple-bind (λ _. IsCoherent) _ _ (Triple-query _ (λ db h. h))
              λ rev.
                Triple-bind (λ _. IsCoherent) _ _ (Triple-count unread (λ db h. h))
                  λ n.
                    Triple-bind (λ next _. Coherent next) _ _
                      (finished-Coherent state detail n rev wake)
                      λ next.
                        Triple-bind (λ _. IsCoherent) _ _ (Triple-exec _ (λ db h. h))
                          λ _. Triple-pure _ (λ db h. h))

reset_delivery-IsCoherent : Keeps IsCoherent reset_delivery
unfolding reset_delivery
reset_delivery-IsCoherent = Keeps-transact _ (
    Triple-bind (λ _. IsCoherent) _ _ (Triple-query _ (λ db h. h))
      λ wake.
        Triple-if (is_some wake) _ _ (λ _. Triple-raise pending_notice)
          λ _.
            Triple-bind (λ _. IsCoherent) _ _ (Triple-exec _ (λ db h. h))
              λ _.
                Triple-bind (λ _. IsCoherent) _ _ (Triple-exec _ (λ db h. h))
                  λ _.
                    Triple-bind (λ _. IsCoherent) _ _ (Triple-exec _ (λ db h. h))
                      λ _. Triple-pure _ (λ db h. h))

acknowledge-IsCoherent :
    (before : State) (changed : List String) → Invariant IsCoherent (acknowledge before changed)
unfolding acknowledge
acknowledge-IsCoherent before changed =
    Triple-if (not (is_empty changed) && same before unread) _ _
      (λ _.
        Triple-bind (λ _. IsCoherent) _ _ (Triple-query _ (λ db h. h))
          λ rev.
            Triple-bind (λ _. IsCoherent) _ _ (Triple-exec _ (λ db h. h))
              λ _.
                Triple-bind (λ _. IsCoherent) _ _ (Triple-query _ (λ db h. h))
                  λ wake.
                    Triple-if (is_settled wake) _ _ (λ _. Triple-exec _ (λ db h. tt))
                      (λ _. Triple-pure tt (λ db h. h)))
      (λ _. Triple-pure tt (λ db h. h))

clear_notice-IsCoherent : Invariant IsCoherent clear_notice
unfolding clear_notice
clear_notice-IsCoherent =
    Triple-bind (λ _. IsCoherent) _ _ (Triple-count unread (λ db h. h))
      λ n.
        Triple-if (n == 0) _ _
          (λ _.
            Triple-bind (λ _. IsCoherent) _ _ (Triple-exec _ (λ db h. tt))
              λ _. Triple-exec _ (λ db h. h))
          (λ _. Triple-pure tt (λ db h. h))

move_all-IsCoherent :
    (before after : State) (ids changed : List String)
    → Invariant IsCoherent (move_all before after ids changed)
unfolding move_all move
move_all-IsCoherent before after [] changed = Triple-pure changed (λ db h. h)
move_all-IsCoherent before after (id ∷ ids) changed =
    Triple-bind (λ _. IsCoherent) _ _ (Triple-insert _ (λ db h. h))
      λ n. move_all-IsCoherent before after ids _

releasing-IsCoherent :
    (before : State) (seen ids : List String) (n : ℕ)
    → Invariant IsCoherent (releasing before seen ids n)
unfolding releasing
releasing-IsCoherent before seen [] n = Triple-pure n (λ db h. h)
releasing-IsCoherent before seen (id ∷ ids) n = elim (Bool-cases (contains seen id)) [
  | inl e ↦ rw (e, releasing) (releasing-IsCoherent before seen ids n)
  | inr e ↦
      rw (e, releasing)
        (Triple-bind (λ _. IsCoherent) _ _ (Triple-query _ (λ db h. h))
          λ st. releasing-IsCoherent before (id ∷ seen) ids _)
]

transition-IsCoherent :
    (ids : List String) (before after : State) → Invariant IsCoherent (transition ids before after)
unfolding transition check_room
transition-IsCoherent ids before after =
    Triple-bind (λ _. IsCoherent) _ _
      (Triple-if (same after unread) _ _
        (λ _.
          Triple-bind (λ _. IsCoherent) _ _ (Triple-count unread (λ db h. h))
            λ n.
              Triple-bind (λ _. IsCoherent) _ _ (releasing-IsCoherent before [] ids 0)
                λ m.
                  Triple-if (ltb 50 (n + m)) _ _ (λ _. Triple-raise inbox_full)
                    (λ _. Triple-pure tt (λ db h. h)))
        (λ _. Triple-pure tt (λ db h. h)))
      λ _.
        Triple-bind (λ _. IsCoherent) _ _ (move_all-IsCoherent before after ids [])
          λ changed.
            Triple-bind (λ _. IsCoherent) _ _ (acknowledge-IsCoherent before changed)
              λ _.
                Triple-bind (λ _. IsCoherent) _ _ clear_notice-IsCoherent
                  λ _. Triple-pure changed (λ db h. h)

transition_tx-IsCoherent :
    (ids : List String) (before after : State) → Keeps IsCoherent (transition_tx ids before after)
unfolding transition_tx
transition_tx-IsCoherent ids before after = Keeps-transact _ (
    Triple-bind (λ _. IsCoherent) _ _ (transition-IsCoherent ids before after)
      λ changed. Triple-pure _ (λ db h. h))

expire-IsCoherent : (now : ℕ) → Keeps IsCoherent (expire now)
unfolding expire
expire-IsCoherent now = Keeps-transact _ (
    Triple-bind (λ _. IsCoherent) _ _ (read_rows-Invariant held 100)
      λ items.
        Triple-bind (λ _. IsCoherent) _ _ (transition-IsCoherent _ held expired)
          λ _.
            Triple-bind (λ _. IsCoherent) _ _ (Triple-exec _ (λ db h. h))
              λ _.
                Triple-bind (λ _. IsCoherent) _ _ (Triple-exec _ (λ db h. h))
                  λ _.
                    Triple-bind (λ _. IsCoherent) _ _ (Triple-exec _ (λ db h. h))
                      λ _. Triple-pure _ (λ db h. h))

-- BeginWake, FinishWake, ResetDelivery, Transition and Expire, which are the methods that write the
-- notice, keep it coherent, whichever statement fails: it waits for a user exactly while its fate is
-- unknown, counts as submitted exactly when Codex has it, and is never a rejected one.
pub notice-IsCoherent :
    (id detail : String) (now cutoff : ℕ) (outcome : WakeState) (ids : List String)
    (before after : State) (w : World Db)
    → IsCoherent w.tables
    → IsCoherent (begin_wake id now w).1.tables
      × IsCoherent (finish_wake id outcome detail w).1.tables
      × IsCoherent (reset_delivery w).1.tables
      × IsCoherent (transition_tx ids before after w).1.tables
      × IsCoherent (expire cutoff w).1.tables
notice-IsCoherent id detail now cutoff outcome ids before after w h = (
  (begin_wake-IsCoherent id now).at w h,
  (finish_wake-IsCoherent id outcome detail).at w h,
  reset_delivery-IsCoherent.at w h,
  (transition_tx-IsCoherent ids before after).at w h,
  (expire-IsCoherent cutoff).at w h,
)
