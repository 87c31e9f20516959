-- ===== src/Store/Purge.antt =====
-- store.go: `Expire` keeps the table valid and deletes no message that is still unread or held.
use native.Mathlib.Nat.{le_trans}
use cross_session_codex.Common.{
  ℕ, ◌≤◌, ◌≡◌, refl, String, Bool, true, false, not, List, [], ◌∷◌, map, arith, contains, select,
}
use cross_session_codex.Sql.{World}
use cross_session_codex.Sql.Triple.{
  Keeps, Invariant, Triple-pure, Triple-query, Triple-exec, Triple-bind, Keeps-transact,
}
use cross_session_codex.Store.{Db, Row, State, unread, held, expired}
use cross_session_codex.Store.Rows.{count_rows, read_rows}
use cross_session_codex.Store.Admission.{has_id}
use cross_session_codex.Store.Expiry.{is_settled_row, expire}
use cross_session_codex.Store.Validity.{IsValid, Ascending, DistinctIds}
use cross_session_codex.Store.Moves.{transition-Invariant}

Ascending-weaken :
    (low low' : ℕ) (xs : List Row) → low' ≤ low → Ascending low xs → Ascending low' xs
Ascending-weaken low low' [] h a = tt
Ascending-weaken low low' (x ∷ xs) h (l, ls) = (omega arith, ls)

module _ (p : Row → Bool) where
  count_rows-select : (s : State) (xs : List Row) → count_rows s 0 (select p xs) ≤ count_rows s 0 xs
  unfolding count_rows select
  count_rows-select s [] = omega arith
  count_rows-select s (x ∷ xs) = ground (arith, count_rows-select s xs)

  Ascending-select : (low : ℕ) (xs : List Row) → Ascending low xs → Ascending low (select p xs)
  unfolding select
  Ascending-select low [] h = tt
  Ascending-select low (x ∷ xs) (l, ls) =
      elim (p x) as (λ b. Ascending low (elim b [ true ↦ x ∷ select p xs | false ↦ select p xs ])) [
        | true ↦ (l, Ascending-select x.rowid xs ls)
        | false ↦ Ascending-weaken x.rowid low _ (omega arith) (Ascending-select x.rowid xs ls)
      ]

  has_id-select :
      (id : String) (xs : List Row) → has_id id xs ≡ false → has_id id (select p xs) ≡ false
  unfolding has_id select
  has_id-select id [] h = refl
  has_id-select id (x ∷ xs) h = ground (arith, has_id-select id xs)

  DistinctIds-select : (xs : List Row) → DistinctIds xs → DistinctIds (select p xs)
  unfolding select
  DistinctIds-select [] h = tt
  DistinctIds-select (x ∷ xs) (l, ls) =
      elim (p x) as (λ b. DistinctIds (elim b [ true ↦ x ∷ select p xs | false ↦ select p xs ])) [
        | true ↦ (has_id-select x.id xs l, DistinctIds-select xs ls)
        | false ↦ DistinctIds-select xs ls
      ]

  select-IsValid : (db : Db) → IsValid db → IsValid (record db { inbox = select p db.inbox })
  select-IsValid db v = record {
    unread_fits = le_trans (count_rows-select unread db.inbox) v.unread_fits;
    held_fits = le_trans (count_rows-select held db.inbox) v.held_fits;
    ascending = Ascending-select 0 db.inbox v.ascending;
    distinct = DistinctIds-select db.inbox v.distinct;
  }

pub read_rows-Invariant :
    {P : Db → Type 0} (s : State) (limit : ℕ) → Invariant P (read_rows s "" limit)
unfolding read_rows
read_rows-Invariant {P} s limit =
    Triple-bind (λ _. P) _ _ (Triple-pure 0 (λ db h. h)) λ row. Triple-query _ (λ db h. h)

pub expire-Keeps : (now : ℕ) → Keeps IsValid (expire now)
unfolding expire
expire-Keeps now = Keeps-transact _ (
    Triple-bind (λ _. IsValid) _ _ (read_rows-Invariant held 100)
      λ items.
        Triple-bind (λ _. IsValid) _ _ (transition-Invariant _ held expired refl)
          λ _.
            Triple-bind (λ _. IsValid) _ _ (Triple-exec _ (λ db v. select-IsValid _ db v))
              λ _.
                Triple-bind (λ _. IsValid) _ _ (Triple-exec _ (λ db v. select-IsValid _ db v))
                  λ _.
                    Triple-bind (λ _. IsValid) _ _
                      (Triple-exec _ (λ db v. record {
                        unread_fits = v.unread_fits;
                        held_fits = v.held_fits;
                        ascending = v.ascending;
                        distinct = v.distinct;
                      }))
                      λ _. Triple-pure _ (λ db v. v))

-- Whichever statement fails, `Expire` keeps the table valid.
expire-IsValid : (now : ℕ) (w : World Db) → IsValid w.tables → IsValid (expire now w).1.tables
expire-IsValid now w v = (expire-Keeps now).at w v

-- The rows that wait for the user.
abbrev pub is_open : Row → Bool
is_open x = not (is_settled_row x)

abbrev pub ids_of : List Row → List String
ids_of = map (λ (x : Row). x.id)

-- No settled row has the id of an open one.
abbrev IsSpared : List Row → Row → Type 0
IsSpared rows x = is_open x ≡ true → contains (ids_of (select is_settled_row rows)) x.id ≡ false
