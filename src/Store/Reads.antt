-- ===== src/Store/Reads.antt =====
-- What it is to read messages, apart from how store.go updates the rows one id after the other.
use cross_session_codex.Common.{
  ◌≡◌, refl, sym, ap, ◌∙◌, String, Bool, true, false, ◌&&◌, ◌||◌, not, List, [], ◌∷◌, arith, ltb,
  str_eq, eq_iff, inl, inr, Bool-cases, if◌then◌else◌, contains,
}
use cross_session_codex.Store.{Row, State, unread, held, declined, expired, same}
use cross_session_codex.Store.Rows.{set_states}
use cross_session_codex.Store.Transition.{affected, move_rows}

abbrev pub is_waiting : State → Bool
is_waiting unread = true
is_waiting _ = false

-- What becomes of the state of a message, where the messages with these ids are read.
abbrev pub read_state : List String → String → State → State
read_state ids id s = if contains ids id && is_waiting s then State.read else s

-- Every unread message with one of the ids is read, and nothing else changes.
abbrev pub read_all : List String → List Row → List Row
read_all ids [] = []
read_all ids (x ∷ rows) = record x { state = read_state ids x.id x.state } ∷ read_all ids rows

abbrev pub has_unread : String → List Row → Bool
has_unread id [] = false
has_unread id (x ∷ rows) = str_eq x.id id && is_waiting x.state || has_unread id rows

-- The ids of unread messages, each where it first occurs; `seen` occurred before.
abbrev pub new_reads : List String → List String → List Row → List String
new_reads seen [] rows = []
new_reads seen (id ∷ ids) rows =
    let rest = new_reads (id ∷ seen) ids rows in
    if not (contains seen id) && has_unread id rows then id ∷ rest else rest

-- The rows after the updates, and the ids that they change.
unfoldable pub moved_rows : State → State → List String → List Row → List Row
moved_rows before after [] rows = rows
moved_rows before after (id ∷ ids) rows =
    moved_rows before after ids (move_rows id before after rows)

unfoldable pub moved_ids : State → State → List String → List Row → List String
moved_ids before after [] rows = []
moved_ids before after (id ∷ ids) rows =
    let rest = moved_ids before after ids (move_rows id before after rows) in
    if ltb 0 (affected id before rows) then id ∷ rest else rest

state_step :
    (seen : List String) (id i : String) (s : State)
    → (if str_eq i id && same (read_state seen i s) unread then State.read else read_state seen i s)
      ≡ read_state (id ∷ seen) i s
state_step seen id i unread = ground (arith, eq_iff id i, eq_iff i id)
state_step seen id i held = ground (arith, eq_iff id i, eq_iff i id)
state_step seen id i State.read = ground (arith, eq_iff id i, eq_iff i id)
state_step seen id i declined = ground (arith, eq_iff id i, eq_iff i id)
state_step seen id i expired = ground (arith, eq_iff id i, eq_iff i id)

state_twice :
    (ids : List String) (id i : String) (s : State)
    → read_state ids i (read_state (id ∷ []) i s) ≡ read_state (id ∷ ids) i s
state_twice ids id i unread = ground arith
state_twice ids id i held = ground arith
state_twice ids id i State.read = ground arith
state_twice ids id i declined = ground arith
state_twice ids id i expired = ground arith

hit_lem :
    (seen : List String) (id i : String) (s : State)
    → (str_eq i id && same (read_state seen i s) unread)
      ≡ (not (contains seen id) && (str_eq i id && is_waiting s))
hit_lem seen id i s = elim (Bool-cases (str_eq i id)) [
  | inr e ↦ rw e (ground arith)
  | inl e ↦ rw ((eq_iff i id).0 e) (of_state s)
]
  where
    of_state :
        (s : State)
        → (str_eq id id && same (read_state seen id s) unread)
          ≡ (not (contains seen id) && (str_eq id id && is_waiting s))
    of_state unread = ground arith
    of_state held = ground arith
    of_state State.read = ground arith
    of_state declined = ground arith
    of_state expired = ground arith

-- One more update is one more id that was read.
move_rows-read_all :
    (seen : List String) (id : String) (rows : List Row)
    → move_rows id unread State.read (read_all seen rows) ≡ read_all (id ∷ seen) rows
unfolding move_rows set_states
move_rows-read_all seen id [] = refl
move_rows-read_all seen id (x ∷ rows) =
    ap (λ (s : State). record x { state = s } ∷ move_rows id unread State.read (read_all seen rows))
      (state_step seen id x.id x.state)
    ∙ ap (λ (t : List Row). record x { state = read_state (id ∷ seen) x.id x.state } ∷ t)
        (move_rows-read_all seen id rows)

affected-read_all :
    (seen : List String) (id : String) (rows : List Row)
    → ltb 0 (affected id unread (read_all seen rows))
      ≡ (not (contains seen id) && has_unread id rows)
unfolding affected
affected-read_all seen id [] = ground arith
affected-read_all seen id (x ∷ rows) =
    ground (arith, hit_lem seen id x.id x.state, affected-read_all seen id rows)

read_all-none : (rows : List Row) → read_all [] rows ≡ rows
read_all-none [] = refl
read_all-none (x ∷ rows) = ap (λ (t : List Row). x ∷ t) (read_all-none rows)

read_all-twice :
    (ids : List String) (id : String) (rows : List Row)
    → read_all ids (read_all (id ∷ []) rows) ≡ read_all (id ∷ ids) rows
read_all-twice ids id [] = refl
read_all-twice ids id (x ∷ rows) =
    ap (λ (s : State). record x { state = s } ∷ read_all ids (read_all (id ∷ []) rows))
      (state_twice ids id x.id x.state)
    ∙ ap (λ (t : List Row). record x { state = read_state (id ∷ ids) x.id x.state } ∷ t)
        (read_all-twice ids id rows)

pub moved_rows-read_all :
    (ids : List String) (rows : List Row)
    → moved_rows unread State.read ids rows ≡ read_all ids rows
unfolding moved_rows
moved_rows-read_all [] rows = sym (read_all-none rows)
moved_rows-read_all (id ∷ ids) rows =
    let once : move_rows id unread State.read rows ≡ read_all (id ∷ []) rows =
      ap (move_rows id unread State.read) (sym (read_all-none rows))
      ∙ move_rows-read_all [] id rows in
    moved_rows-read_all ids (move_rows id unread State.read rows)
    ∙ ap (read_all ids) once
    ∙ read_all-twice ids id rows

moved_ids-after :
    (seen ids : List String) (rows : List Row)
    → moved_ids unread State.read ids (read_all seen rows) ≡ new_reads seen ids rows
unfolding moved_ids
moved_ids-after seen [] rows = refl
moved_ids-after seen (id ∷ ids) rows =
    rw
      (
        affected-read_all seen id rows,
        move_rows-read_all seen id rows,
        moved_ids-after (id ∷ seen) ids rows,
      )
      refl

pub moved_ids-new_reads :
    (ids : List String) (rows : List Row)
    → moved_ids unread State.read ids rows ≡ new_reads [] ids rows
moved_ids-new_reads ids rows =
    ap (moved_ids unread State.read ids) (sym (read_all-none rows)) ∙ moved_ids-after [] ids rows
