-- ===== src/Store/Validity.antt =====
-- store.go: what holds of the inbox table between any two transactions, and how the statements on
-- rows keep it.
use cross_session_codex.Common.{
  ℕ, ◌+◌, ◌≤◌, ◌<◌, ◌≡◌, refl, ◌∙◌, String, true, false, ◌||◌, inl, inr, Bool-cases, List, [], ◌∷◌,
  ◌++◌, some, arith, str_eq, eq_iff,
}
use cross_session_codex.Store.{Db, Row, Message, State, unread, held, expired, same}
use cross_session_codex.Store.Rows.{count_rows, set_states, mark}
use cross_session_codex.Store.Admission.{has_id, known, next_rowid, insert_row, oldest_held}

-- Every rowid is above the one before it.
abbrev pub Ascending : ℕ → List Row → Type 0
Ascending low [] = Unit
Ascending low (x ∷ xs) = (low < x.rowid) × Ascending x.rowid xs

-- The primary key.
abbrev pub DistinctIds : List Row → Type 0
DistinctIds [] = Unit
DistinctIds (x ∷ xs) = (has_id x.id xs ≡ false) × DistinctIds xs

-- The unread inbox never holds more than 50 messages, and never more than 100 are held.
pub record IsValid (db : Db) : Type 0 where
  pub unread_fits : count_rows unread 0 db.inbox ≤ 50
  pub held_fits : count_rows held 0 db.inbox ≤ 100
  pub ascending : Ascending 0 db.inbox
  pub distinct : DistinctIds db.inbox

pub count_rows-append :
    (s : State) (n : ℕ) (xs ys : List Row)
    → count_rows s n (xs ++ ys) ≡ count_rows s n xs + count_rows s n ys
unfolding count_rows
count_rows-append s n [] ys = omega arith
count_rows-append s n (x ∷ xs) ys = ground (arith, count_rows-append s n xs ys)

module _ (f : Row → State) where
  pub Ascending-set_states :
      (low : ℕ) (xs : List Row) → Ascending low xs → Ascending low (set_states f xs)
  unfolding set_states
  Ascending-set_states low [] h = tt
  Ascending-set_states low (x ∷ xs) (h, hs) = (h, Ascending-set_states x.rowid xs hs)

  pub has_id-set_states : (id : String) (xs : List Row) → has_id id (set_states f xs) ≡ has_id id xs
  unfolding set_states has_id
  has_id-set_states id [] = refl
  has_id-set_states id (x ∷ xs) = rw (has_id-set_states id xs)

  pub DistinctIds-set_states : (xs : List Row) → DistinctIds xs → DistinctIds (set_states f xs)
  unfolding set_states
  DistinctIds-set_states [] h = tt
  DistinctIds-set_states (x ∷ xs) (h, hs) =
      (has_id-set_states x.id xs ∙ h, DistinctIds-set_states xs hs)

  -- A state that no row is set to does not become more frequent.
  pub count_rows-set_states :
      (s : State)
      → ((x : Row) → same (f x) s ≡ true → same x.state s ≡ true)
      → (xs : List Row) → count_rows s 0 (set_states f xs) ≤ count_rows s 0 xs
  unfolding count_rows set_states
  count_rows-set_states s h [] = omega arith
  count_rows-set_states s h (x ∷ xs) = ground (arith, h x, count_rows-set_states s h xs)

pub count_rows-mark-le :
    (s : State) (id : String) (xs : List Row)
    → same expired s ≡ false
    → count_rows s 0 (mark id expired xs) ≤ count_rows s 0 xs
unfolding mark
count_rows-mark-le s id xs h = count_rows-set_states _ s (λ x k. ground arith) xs

-- The row that an eviction marks was held.
pub count_rows-mark-held :
    (low : ℕ) (xs : List Row) (y : Row)
    → Ascending low xs
    → oldest_held xs ≡ some y
    → count_rows held 0 (mark y.id expired xs) < count_rows held 0 xs
unfolding count_rows mark oldest_held set_states
count_rows-mark-held low [] y h e = cc
count_rows-mark-held low (x ∷ xs) y (h, hs) e = ground (
  arith,
  eq_iff x.id y.id,
  count_rows-mark-held x.rowid xs y hs,
  count_rows-mark-le held y.id xs refl,
)

pub Ascending-append :
    (low : ℕ) (xs : List Row) (r : Row)
    → low < r.rowid
    → next_rowid xs ≤ r.rowid
    → Ascending low xs
    → Ascending low (xs ++ r ∷ [])
unfolding next_rowid
Ascending-append low [] r h k a = (h, tt)
Ascending-append low (x ∷ xs) r h k (l, ls) =
    (l, Ascending-append x.rowid xs r (ground arith) (ground arith) ls)

has_id-append :
    (id : String) (xs : List Row) (r : Row)
    → has_id id (xs ++ r ∷ []) ≡ (has_id id xs || str_eq r.id id)
unfolding has_id
has_id-append id [] r = ground arith
has_id-append id (x ∷ xs) r = ground (arith, has_id-append id xs r)

pub DistinctIds-append :
    (xs : List Row) (r : Row) → has_id r.id xs ≡ false → DistinctIds xs → DistinctIds (xs ++ r ∷ [])
unfolding has_id
DistinctIds-append [] r h d = (refl, tt)
DistinctIds-append (x ∷ xs) r h (l, ls) = (
  ground (arith, has_id-append x.id xs r, eq_iff x.id r.id, eq_iff r.id x.id),
  DistinctIds-append xs r (ground arith) ls,
)

next_rowid_pos : (xs : List Row) → 0 < next_rowid xs
unfolding next_rowid
next_rowid_pos [] = omega arith
next_rowid_pos (x ∷ xs) = ground (arith, next_rowid_pos xs)

-- The room that an insertion in a state needs.
abbrev pub HasRoom : State → Db → Type 0
HasRoom unread db = count_rows unread 0 db.inbox < 50
HasRoom held db = count_rows held 0 db.inbox < 100
HasRoom _ db = Unit

unread_fits-append :
    (s : State) (db : Db) (r : Row)
    → r.state ≡ s
    → count_rows unread 0 db.inbox ≤ 50
    → HasRoom s db
    → count_rows unread 0 (db.inbox ++ r ∷ []) ≤ 50
unfolding count_rows
unread_fits-append unread db r e h room = rw count_rows-append (ground arith)
unread_fits-append _ db r e h room = rw count_rows-append (ground arith)

held_fits-append :
    (s : State) (db : Db) (r : Row)
    → r.state ≡ s
    → count_rows held 0 db.inbox ≤ 100
    → HasRoom s db
    → count_rows held 0 (db.inbox ++ r ∷ []) ≤ 100
unfolding count_rows
held_fits-append held db r e h room = rw count_rows-append (ground arith)
held_fits-append _ db r e h room = rw count_rows-append (ground arith)

pub insert_row-IsValid :
    (peer : String) (s : State) (m : Message) (db : Db)
    → IsValid db
    → HasRoom s db
    → IsValid (insert_row peer s m db).1
unfolding insert_row
insert_row-IsValid peer s m db v room =
    elim (Bool-cases (has_id m.id db.inbox || known peer m.wire_id db.inbox)) [
      | inl e ↦ rw e v
      | inr e ↦ rw e (record {
        unread_fits = unread_fits-append s db _ refl v.unread_fits room;
        held_fits = held_fits-append s db _ refl v.held_fits room;
        ascending =
            Ascending-append 0 db.inbox _ (next_rowid_pos db.inbox) (omega arith) v.ascending;
        distinct = DistinctIds-append db.inbox _ (ground arith) v.distinct;
      })
    ]
