-- ===== src/Store/Moves.antt =====
-- store.go: `Transition` keeps the table valid.
use cross_session_codex.Common.{
  ◌+◌, ◌≤◌, ◌≡◌, refl, String, true, false, ◌&&◌, not, List, [], ◌∷◌, arith, ◌==◌,
}
use native.Mathlib.Nat.{le_trans}
use cross_session_codex.Sql.{World}
use cross_session_codex.Sql.Triple.{
  Triple, Keeps, Invariant, Triple-pure, Triple-query, Triple-exec, Triple-if, Triple-bind,
  Triple-insert, Triple-weaken, Keeps-transact,
}
use cross_session_codex.Store.{Db, Row, State, unread, held, same}
use cross_session_codex.Store.Rows.{count_rows}
use cross_session_codex.Store.Transition.{
  move_rows, move, move_all, acknowledge, clear_notice, is_empty, is_settled, transition,
  transition_tx,
}
use cross_session_codex.Store.Validity.{
  IsValid, Ascending-set_states, DistinctIds-set_states, count_rows-set_states,
}
use cross_session_codex.Store.Capacity.{Triple-count}
use cross_session_codex.Store.Pending.{pending, move_rows-pending, check_room-pending}

-- An update that fits keeps the table valid.
move_rows-IsValid :
    (id : String) (before after : State) (db : Db)
    → same after held ≡ false
    → IsValid db
    → count_rows unread 0 (move_rows id before after db.inbox) ≤ 50
    → IsValid (record db { inbox = move_rows id before after db.inbox })
unfolding move_rows
move_rows-IsValid id before after db e v fits = record {
  unread_fits = fits;
  held_fits = le_trans (count_rows-set_states _ held (λ x k. ground arith) db.inbox) v.held_fits;
  ascending = Ascending-set_states _ 0 db.inbox v.ascending;
  distinct = DistinctIds-set_states _ db.inbox v.distinct;
}

move_rows-unread-le :
    (id : String) (before after : State) (xs : List Row)
    → same after unread ≡ false
    → count_rows unread 0 (move_rows id before after xs) ≤ count_rows unread 0 xs
unfolding move_rows
move_rows-unread-le id before after xs e = count_rows-set_states _ unread (λ x k. ground arith) xs

-- The loop of the updates, into the inbox and elsewhere.
move_all-unread :
    (before : State) (ids changed : List String)
    → Triple
        (λ db. IsValid db × (count_rows unread 0 db.inbox + pending before [] ids db.inbox ≤ 50))
        (move_all before unread ids changed)
        (λ _. IsValid)
unfolding move_all move
move_all-unread before [] changed = Triple-pure changed (λ db h. h.0)
move_all-unread before (id ∷ ids) changed =
    Triple-bind
      (λ _ db. IsValid db × (count_rows unread 0 db.inbox + pending before [] ids db.inbox ≤ 50)) _
      _
      (Triple-insert _ (λ db h.
        let step = move_rows-pending before id ids db.inbox in
        (move_rows-IsValid id before unread db refl h.0 (omega arith), omega arith)))
      λ n. move_all-unread before ids _

move_all-IsValid :
    (before after : State) (ids changed : List String)
    → same after held ≡ false
    → same after unread ≡ false
    → Invariant IsValid (move_all before after ids changed)
unfolding move_all move
move_all-IsValid before after [] changed e e' = Triple-pure changed (λ db h. h)
move_all-IsValid before after (id ∷ ids) changed e e' =
    Triple-bind (λ _. IsValid) _ _
      (Triple-insert _ (λ db v.
        move_rows-IsValid id before after db e v
          (le_trans (move_rows-unread-le id before after db.inbox e') v.unread_fits)))
      λ n. move_all-IsValid before after ids _ e e'

-- What follows the updates writes to the metadata alone.
abbrev pub OnlyInbox : (Db → Type 0) → Type 0
OnlyInbox P = (db db' : Db) → db'.inbox ≡ db.inbox → P db → P db'

module _ {P : Db → Type 0} (only : OnlyInbox P) where
  pub acknowledge-Invariant :
      (before : State) (changed : List String) → Invariant P (acknowledge before changed)
  unfolding acknowledge
  acknowledge-Invariant before changed =
      Triple-if (not (is_empty changed) && same before unread) _ _
        (λ _.
          Triple-bind (λ _. P) _ _ (Triple-query _ (λ db h. h))
            λ rev.
              Triple-bind (λ _. P) _ _ (Triple-exec _ (λ db h. only db _ refl h))
                λ _.
                  Triple-bind (λ _. P) _ _ (Triple-query _ (λ db h. h))
                    λ wake.
                      Triple-if (is_settled wake) _ _
                        (λ _. Triple-exec _ (λ db h. only db _ refl h))
                        (λ _. Triple-pure tt (λ db h. h)))
        (λ _. Triple-pure tt (λ db h. h))

  pub clear_notice-Invariant : Invariant P clear_notice
  unfolding clear_notice
  clear_notice-Invariant =
      Triple-bind (λ _. P) _ _ (Triple-count unread (λ db h. h))
        λ n.
          Triple-if (n == 0) _ _
            (λ _.
              Triple-bind (λ _. P) _ _ (Triple-exec _ (λ db h. only db _ refl h))
                λ _. Triple-exec _ (λ db h. only db _ refl h))
            (λ _. Triple-pure tt (λ db h. h))

pub IsValid-OnlyInbox : OnlyInbox IsValid
IsValid-OnlyInbox db db' e v = record {
  unread_fits = rw e v.unread_fits;
  held_fits = rw e v.held_fits;
  ascending = rw e v.ascending;
  distinct = rw e v.distinct;
}

moves-IsValid :
    (db0 : Db) (ids : List String) (before after : State)
    → same after held ≡ false
    → IsValid db0
    → Triple
        (λ db.
          (db ≡ db0)
          × (same after unread ≡ true
              → count_rows unread 0 db0.inbox + pending before [] ids db0.inbox ≤ 50))
        (move_all before after ids [])
        (λ _. IsValid)
moves-IsValid db0 ids before unread e v =
    Triple-weaken _ (move_all-unread before ids []) (λ db h. rw (h.0) (v, h.1 refl)) (λ _ _ h. h)
moves-IsValid db0 ids before held e v = cc
moves-IsValid db0 ids before after e v =
    Triple-weaken _ (move_all-IsValid before after ids [] refl refl) (λ db h. rw (h.0) v)
      (λ _ _ h. h)

transition-from :
    (db0 : Db) (ids : List String) (before after : State)
    → same after held ≡ false
    → IsValid db0
    → Triple (λ db. db ≡ db0) (transition ids before after) (λ _. IsValid)
unfolding transition
transition-from db0 ids before after e v =
    Triple-bind _ _ _ (check_room-pending db0 before v.distinct ids after) λ _.
      Triple-bind (λ _. IsValid) _ _ (moves-IsValid db0 ids before after e v)
        λ changed.
          Triple-bind (λ _. IsValid) _ _ (acknowledge-Invariant IsValid-OnlyInbox before changed)
            λ _.
              Triple-bind (λ _. IsValid) _ _ (clear_notice-Invariant IsValid-OnlyInbox)
                λ _. Triple-pure changed (λ db h. h)

-- Between any two states but into `held`, for any ids, repeated and unknown ones included.
pub transition-Invariant :
    (ids : List String) (before after : State)
    → same after held ≡ false
    → Invariant IsValid (transition ids before after)
transition-Invariant ids before after e = record {
  at = λ w v. (transition-from w.tables ids before after e v).at w refl;
}

pub transition_tx-Keeps :
    (ids : List String) (before after : State)
    → same after held ≡ false
    → Keeps IsValid (transition_tx ids before after)
unfolding transition_tx
transition_tx-Keeps ids before after e = Keeps-transact _ (
    Triple-bind (λ _. IsValid) _ _ (transition-Invariant ids before after e)
      λ changed. Triple-pure _ (λ db h. h))

-- A transition to any state but `held` keeps the table valid, whichever statement fails and whatever
-- ids it is given: no release makes the unread messages more than 50.
pub transition_tx-IsValid :
    (ids : List String) (before after : State) (w : World Db)
    → same after held ≡ false
    → IsValid w.tables
    → IsValid (transition_tx ids before after w).1.tables
transition_tx-IsValid ids before after w e v = (transition_tx-Keeps ids before after e).at w v
