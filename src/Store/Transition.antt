-- ===== src/Store/Transition.antt =====
-- store.go: `transition` and `Transition`, which move messages from one state to another.
use cross_session_codex.Common.{
  ℕ, suc, ◌+◌, ◌%◌, ◌^◌, String, Bool, true, false, not, ◌&&◌, List, [], ◌∷◌, ◌++◌, Option, none,
  some, ltb, ◌==◌, str_eq, if◌then◌else◌, contains,
}
use cross_session_codex.Sql.{
  ok, Sql, inbox_full, commit, pure, raise, statement, query, exec, ◌>>=◌, ◌>>◌, transact,
}
use cross_session_codex.Store.{Db, Row, State, unread, same, Wake}
use cross_session_codex.Store.Rows.{count, set_states}

-- SELECT state FROM inbox WHERE id=?
unfoldable pub state_of : String → List Row → Option State
state_of id [] = none
state_of id (x ∷ xs) = if str_eq x.id id then some x.state else state_of id xs

-- st == before; a missing row has the empty state
abbrev pub is_state : Option State → State → Bool
is_state none s = false
is_state (some t) s = same t s

-- The loop that counts the distinct ids whose message would be released.
unfoldable pub releasing : State → List String → List String → ℕ → Sql Db ℕ
unfolding state_of
releasing before seen [] n = pure n
releasing before seen (id ∷ ids) n = elim (contains seen id) [
  | true ↦ releasing before seen ids n
  | false ↦ do
    st ← query (λ db. state_of id db.inbox)
    releasing before (id ∷ seen) ids (if is_state st before then suc n else n)
]

-- if after == "unread"
unfoldable pub check_room : List String → State → State → Sql Db (Unit {0})
unfolding count releasing
check_room ids before after =
    if same after unread
    then (do
      n ← count unread ""
      more ← releasing before [] ids 0
      if ltb 50 (n + more) then raise inbox_full else pure tt)
    else pure tt

-- UPDATE inbox SET state=? WHERE id=? AND state=?
abbrev pub hits : String → State → Row → Bool
hits id before x = str_eq x.id id && same x.state before

unfoldable pub move_rows : String → State → State → List Row → List Row
unfolding set_states
move_rows id before after = set_states (λ x. if hits id before x then after else x.state)

-- RowsAffected of that statement
unfoldable pub affected : String → State → List Row → ℕ
affected id before [] = 0
affected id before (x ∷ xs) = let n = affected id before xs in if hits id before x then suc n else n

unfoldable pub move : String → State → State → Sql Db ℕ
unfolding move_rows affected
move id before after = statement (λ db.
    (ok (affected id before db.inbox), record db { inbox = move_rows id before after db.inbox }))

-- The loop of the updates; `changed` are the ids that it has changed.
unfoldable pub move_all : State → State → List String → List String → Sql Db (List String)
unfolding move
move_all before after [] changed = pure changed
move_all before after (id ∷ ids) changed = do
  n ← move id before after
  move_all before after ids (if ltb 0 n then changed ++ id ∷ [] else changed)

-- setMeta(q, "ack_revision", rev+1), where rev is an int64 by its bit pattern
abbrev pub set_revision : ℕ → Db → Db
set_revision n db = record db { metadata = record db.metadata { ack_revision = n } }

-- setMeta(q, "wake", v)
abbrev pub set_wake : Option Wake → Db → Db
set_wake v db = record db { metadata = record db.metadata { wake = v } }

-- wake["submitted"] == true && wake["needs_manual_action"] != true
abbrev pub is_settled : Option Wake → Bool
is_settled none = false
is_settled (some w) = w.submitted && not w.needs_manual_action

abbrev pub is_empty : List String → Bool
is_empty [] = true
is_empty (x ∷ xs) = false

-- if len(changed) > 0 && before == "unread"
unfoldable pub acknowledge : State → List String → Sql Db (Unit {0})
acknowledge before changed =
    if not (is_empty changed) && same before unread
    then (do
      rev ← query (λ db. db.metadata.ack_revision)
      exec (set_revision ((rev + 1) % 2 ^ 64))
      wake ← query (λ db. db.metadata.wake)
      if is_settled wake then exec (set_wake none) else pure tt)
    else pure tt

-- if n == 0
unfoldable pub clear_notice : Sql Db (Unit {0})
unfolding count
clear_notice = do
  n ← count unread ""
  if n == 0
      then (do
        exec (set_wake none)
        exec (λ db. record db { metadata = record db.metadata { delivery_waiting = none } }))
      else pure tt

-- transition(q, ids, before, after)
unfoldable pub transition : List String → State → State → Sql Db (List String)
unfolding check_room move_all acknowledge clear_notice
transition ids before after = do
  check_room ids before after
  changed ← move_all before after ids []
  acknowledge before changed
  clear_notice
  pure changed

-- Transition(ids, before, after)
unfoldable pub transition_tx : List String → State → State → Sql Db (List String)
unfolding transition
transition_tx ids before after =
    transact (do changed ← transition ids before after; pure (commit changed))
