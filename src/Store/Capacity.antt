-- ===== src/Store/Capacity.antt =====
-- store.go: `Accept`, `Transition` and `Expire` keep the bounds of the inbox and the keys of its
-- table, whichever statements fail.
use cross_session_codex.Common.{
  ℕ, ◌≡◌, refl, String, false, ◌&&◌, Option, none, some, arith, leb, length,
}
use cross_session_codex.Sql.{World, no_rows}
use cross_session_codex.Sql.Triple.{
  Triple, Keeps, Invariant, Triple-pure, Triple-raise, Triple-query, Triple-exec, Triple-if,
  Triple-bind, Triple-weaken, Keeps-transact, Triple-insert,
}
use cross_session_codex.Store.{Db, Row, Message, State, unread, held, expired, same}
use cross_session_codex.Store.Rows.{count_rows, count, or_raise, mark}
use cross_session_codex.Store.Admission.{accept, admit, make_room, evict, oldest_held, has_body}
use cross_session_codex.Store.Validity.{
  IsValid, HasRoom, insert_row-IsValid, count_rows-mark-held, count_rows-mark-le,
  Ascending-set_states, DistinctIds-set_states,
}

-- A count with no cursor is one query.
pub Triple-count :
    {P : Db → Type 0} {Q : ℕ → Db → Type 0} (s : State)
    → ((db : Db) → P db → Q (count_rows s 0 db.inbox) db)
    → Triple P (count s "") Q
unfolding count
Triple-count {P} s h =
    Triple-bind (λ n db. P db × (n ≡ 0)) _ _ (Triple-pure 0 (λ db p. (p, refl)))
      (λ n. Triple-query _ (λ db p. rw (p.1) (h db p.0)))

mark-HasRoom :
    (db : Db) (y : Row)
    → IsValid db
    → oldest_held db.inbox ≡ some y
    → IsValid (record db { inbox = mark y.id expired db.inbox })
      × HasRoom held (record db { inbox = mark y.id expired db.inbox })
mark-HasRoom db y v e =
    let less = count_rows-mark-held 0 db.inbox y v.ascending e in
    unfold mark in
    (
      record {
        unread_fits = omega (arith, count_rows-mark-le unread y.id db.inbox refl);
        held_fits = omega arith;
        ascending = Ascending-set_states _ 0 db.inbox v.ascending;
        distinct = DistinctIds-set_states _ db.inbox v.distinct;
      },
      omega arith,
    )

-- Taking the oldest held message out leaves room for another one.
evict-HasRoom : Triple IsValid evict (λ _ db. IsValid db × HasRoom held db)
unfolding evict
evict-HasRoom =
    Triple-bind (λ o db. IsValid db × (oldest_held db.inbox ≡ o)) _ _
      (Triple-query _ (λ db v. (v, refl)))
      λ o.
        Triple-bind (λ y db. IsValid db × (oldest_held db.inbox ≡ some y)) _ _ (row o)
          λ y.
            Triple-bind (λ _ db. IsValid db × HasRoom held db) _ _
              (Triple-exec _ (λ db h. mark-HasRoom db y h.0 h.1)) λ _. Triple-pure _ (λ db h. h)
  where
    row :
        (o : Option Row)
        → Triple
            (λ (db : Db). IsValid db × (oldest_held db.inbox ≡ o))
            (or_raise no_rows o)
            (λ y db. IsValid db × (oldest_held db.inbox ≡ some y))
    row none = Triple-raise no_rows
    row (some y) = Triple-pure y (λ db h. h)

make_room-HasRoom :
    (s : State) (n : ℕ)
    → (same s unread && leb 50 n) ≡ false
    → Triple
        (λ db. IsValid db × (count_rows s 0 db.inbox ≡ n))
        (make_room s n)
        (λ _ db. IsValid db × HasRoom s db)
unfolding make_room
make_room-HasRoom unread n h = Triple-pure none (λ db v. (v.0, ground arith))
make_room-HasRoom held n h =
    Triple-if (leb 100 n) _ _ (λ _. Triple-weaken _ evict-HasRoom (λ db v. v.0) (λ _ db v. v))
      (λ few. Triple-pure none (λ db v. (v.0, ground arith)))
make_room-HasRoom _ n h = Triple-pure none (λ db v. (v.0, tt))

admit-Invariant :
    (m : Message) (peer : String) (s : State) (now : ℕ) (fresh : String)
    → Invariant IsValid (admit m peer s now fresh)
unfolding admit
admit-Invariant m peer s now fresh =
    Triple-bind (λ n db. IsValid db × (count_rows s 0 db.inbox ≡ n)) _ _
      (Triple-count s (λ db v. (v, refl)))
      λ n.
        Triple-if (same s unread && leb 50 n) _ _ (λ _. Triple-pure _ (λ db v. v.0))
          λ room.
            Triple-bind (λ _ db. IsValid db × HasRoom s db) _ _ (make_room-HasRoom s n room)
              λ evicted.
                Triple-bind (λ _. IsValid) _ _
                  (Triple-insert _ (λ db v. insert_row-IsValid peer s _ db v.0 v.1))
                  λ _. Triple-pure _ (λ db v. v)

pub accept-Keeps :
    (m : Message) (peer : String) (s : State) (now : ℕ) (fresh : String)
    → Keeps IsValid (accept m peer s now fresh)
unfolding accept
accept-Keeps m peer s now fresh = Keeps-transact _ (
    Triple-bind (λ _. IsValid) _ _ (Triple-query _ (λ db v. v))
      λ exists.
        Triple-if exists _ _ (λ _. Triple-pure _ (λ db v. v))
          λ _.
            Triple-bind (λ _. IsValid) _ _ (Triple-query _ (λ db v. v))
              λ recents.
                Triple-if (has_body m.body recents) _ _ (λ _. Triple-pure _ (λ db v. v))
                  λ _.
                    Triple-if (leb 20 (length recents)) _ _ (λ _. Triple-pure _ (λ db v. v))
                      λ _. admit-Invariant m peer s now fresh)

-- Whatever message arrives and whichever statement fails, `Accept` keeps the table valid: at most 50
-- messages unread, at most 100 held, the ids distinct and the rowids ascending.
pub accept-IsValid :
    (m : Message) (peer : String) (s : State) (now : ℕ) (fresh : String) (w : World Db)
    → IsValid w.tables
    → IsValid (accept m peer s now fresh w).1.tables
accept-IsValid m peer s now fresh w v = (accept-Keeps m peer s now fresh).at w v
