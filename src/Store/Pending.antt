-- ===== src/Store/Pending.antt =====
-- store.go: the count of the ids that a release would move bounds what its updates then move.
use cross_session_codex.Common.{
  ℕ, suc, ◌+◌, ◌≤◌, ◌≡◌, refl, String, Bool, true, false, ◌&&◌, not, List, [], ◌∷◌, arith, ltb,
  eq_iff, ap, Bool-cases, inl, inr, if◌then◌else◌, contains,
}
use cross_session_codex.Sql.{inbox_full}
use cross_session_codex.Sql.Triple.{
  Triple, Triple-pure, Triple-raise, Triple-query, Triple-if, Triple-bind, Triple-weaken,
  Triple-fact,
}
use cross_session_codex.Store.{Db, Row, State, unread, same}
use cross_session_codex.Store.Rows.{count_rows}
use cross_session_codex.Store.Transition.{state_of, is_state, releasing, check_room, move_rows}
use cross_session_codex.Store.Admission.{has_id}
use cross_session_codex.Store.Validity.{DistinctIds}
use cross_session_codex.Store.Capacity.{Triple-count}

-- The rows that the ids of a list would move, but for the ids already seen.
abbrev is_pending : State → List String → List String → Row → Bool
is_pending before seen ids x =
    same x.state before && ltb 0 x.rowid && contains ids x.id && not (contains seen x.id)

unfoldable pub pending : State → List String → List String → List Row → ℕ
pending before seen ids [] = 0
pending before seen ids (x ∷ xs) =
    let n = pending before seen ids xs in if is_pending before seen ids x then suc n else n

-- One update moves into the inbox what it takes from the rows that are still to be moved.
pub move_rows-pending :
    (before : State) (id : String) (ids : List String) (xs : List Row)
    → count_rows unread 0 (move_rows id before unread xs)
        + pending before [] ids (move_rows id before unread xs)
      ≤ count_rows unread 0 xs + pending before [] (id ∷ ids) xs
unfolding count_rows pending move_rows
move_rows-pending before id ids [] = omega arith
move_rows-pending before id ids (x ∷ xs) =
    ground (arith, move_rows-pending before id ids xs, eq_iff x.id id, eq_iff id x.id)

pub pending-nil :
    (before : State) (seen : List String) (xs : List Row) → pending before seen [] xs ≡ 0
unfolding pending
pending-nil before seen [] = refl
pending-nil before seen (x ∷ xs) = ground (arith, pending-nil before seen xs)

pub pending_seen :
    (before : State) (seen : List String) (id : String) (ids : List String) (xs : List Row)
    → contains seen id ≡ true
    → pending before seen (id ∷ ids) xs ≡ pending before seen ids xs
unfolding pending
pending_seen before seen id ids [] h = refl
pending_seen before seen id ids (x ∷ xs) h =
    ground (arith, pending_seen before seen id ids xs h, eq_iff id x.id)

-- An id that no row has any more moves nothing.
pub pending_absent :
    (before : State) (seen : List String) (id : String) (ids : List String) (xs : List Row)
    → has_id id xs ≡ false
    → pending before seen (id ∷ ids) xs ≤ pending before (id ∷ seen) ids xs
unfolding pending has_id
pending_absent before seen id ids [] h = omega arith
pending_absent before seen id ids (x ∷ xs) h =
    ground (arith, pending_absent before seen id ids xs, eq_iff id x.id, eq_iff x.id id)

-- With distinct ids, an id moves one row, and only if its state is the one to leave.
pub pending_fresh :
    (before : State) (seen : List String) (id : String) (ids : List String) (xs : List Row)
    → DistinctIds xs
    → pending before seen (id ∷ ids) xs
      ≤ (if is_state (state_of id xs) before then 1 else 0) + pending before (id ∷ seen) ids xs
unfolding pending state_of
pending_fresh before seen id ids [] d = omega arith
pending_fresh before seen id ids (x ∷ xs) (d, ds) = ground (
  arith,
  pending_fresh before seen id ids xs ds,
  pending_absent before seen id ids xs,
  eq_iff id x.id,
  eq_iff x.id id,
)

module _ (db0 : Db) (before : State) (d : DistinctIds db0.inbox) where
  -- The count of `releasing` bounds the rows that the updates will move.
  pub releasing-pending :
      (seen ids : List String) (n : ℕ)
      → Triple
          (λ db. db ≡ db0)
          (releasing before seen ids n)
          (λ m db. (db ≡ db0) × (n + pending before seen ids db0.inbox ≤ m))
  unfolding releasing
  releasing-pending seen [] n =
      Triple-pure n (λ db e. (e, omega (arith, pending-nil before seen db0.inbox)))
  releasing-pending seen (id ∷ ids) n = elim (Bool-cases (contains seen id)) [
    | inl e ↦
        rw (e, releasing)
          (Triple-weaken _ (releasing-pending seen ids n) (λ db h. h)
            (λ m db h. (h.0, omega (arith, pending_seen before seen id ids db0.inbox e, h.1))))
    | inr e ↦
        rw (e, releasing)
          (Triple-bind (λ st db. (db ≡ db0) × (st ≡ state_of id db0.inbox)) _ _
            (Triple-query _ (λ db h. (h, ap (λ (t : Db). state_of id t.inbox) h)))
            λ st. Triple-fact (st ≡ state_of id db0.inbox) _ λ found.
              Triple-weaken _
                (releasing-pending (id ∷ seen) ids (if is_state st before then suc n else n))
                (λ db h. h)
                (λ m db h.
                  (h.0, ground (arith, found, h.1, pending_fresh before seen id ids db0.inbox d))))
  ]

  -- After the check a release of these ids fits.
  pub check_room-pending :
      (ids : List String) (after : State)
      → Triple
          (λ db. db ≡ db0)
          (check_room ids before after)
          (λ _ db.
            (db ≡ db0)
            × (same after unread ≡ true
                → count_rows unread 0 db0.inbox + pending before [] ids db0.inbox ≤ 50))
  unfolding check_room
  check_room-pending ids after =
      Triple-if (same after unread) _ _
        (λ _.
          Triple-bind (λ n db. (db ≡ db0) × (n ≡ count_rows unread 0 db0.inbox)) _ _
            (Triple-count unread (λ db h. (h, ap (λ (t : Db). count_rows unread 0 t.inbox) h)))
            λ n. Triple-fact (n ≡ count_rows unread 0 db0.inbox) _ λ counted.
              Triple-bind (λ m db. (db ≡ db0) × (0 + pending before [] ids db0.inbox ≤ m)) _ _
                (releasing-pending [] ids 0)
                λ m. Triple-fact (0 + pending before [] ids db0.inbox ≤ m) _ λ bound.
                  Triple-if (ltb 50 (n + m)) _ _ (λ _. Triple-raise inbox_full)
                    λ fits. Triple-pure tt (λ db h. (h, λ _. ground arith)))
        (λ e. Triple-pure tt (λ db h. (h, λ e'. ground arith)))
