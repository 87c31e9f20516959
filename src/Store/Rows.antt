-- ===== src/Store/Rows.antt =====
-- store.go: `count`, `readRows`, `Get` and the statements on inbox rows that several methods use.
use cross_session_codex.Common.{
  ℕ, suc, String, ◌&&◌, List, [], ◌∷◌, Option, none, some, ltb, str_eq, if◌then◌else◌, take,
}
use cross_session_codex.Sql.{Error, Sql, cursor_gone, pure, raise, query, ◌>>=◌}
use cross_session_codex.Store.{Db, Row, State, same}

-- SELECT count(*) FROM inbox WHERE state=? AND rowid>?
unfoldable pub count_rows : State → ℕ → List Row → ℕ
count_rows s after [] = 0
count_rows s after (x ∷ xs) =
    let n = count_rows s after xs in if same x.state s && ltb after x.rowid then suc n else n

-- SELECT rowid FROM inbox WHERE id=?
unfoldable pub rowid_of : String → List Row → Option ℕ
rowid_of id [] = none
rowid_of id (x ∷ xs) = if str_eq x.id id then some x.rowid else rowid_of id xs

abbrev pub or_raise : {S A : Type 0} → Error → Option A → Sql S A
or_raise e none = raise e
or_raise e (some a) = pure a

-- The rowid that a cursor stands for: that of the row it names, or 0 where it is empty.
unfoldable pub cursor : String → Sql Db ℕ
unfolding rowid_of
cursor after =
    if str_eq after ""
    then pure 0
    else (do found ← query (λ db. rowid_of after db.inbox); or_raise cursor_gone found)

-- count(q, state, after)
unfoldable pub count : State → String → Sql Db ℕ
unfolding count_rows cursor
count s after = do row ← cursor after; query (λ db. count_rows s row db.inbox)

-- SELECT data,state FROM inbox WHERE state=? AND rowid>? ORDER BY rowid
unfoldable pub rows_after : State → ℕ → List Row → List Row
rows_after s after [] = []
rows_after s after (x ∷ xs) =
    let rest = rows_after s after xs in
    if same x.state s && ltb after x.rowid then x ∷ rest else rest

-- readRows(q, state, after, limit); `Read` is the call with an empty cursor.
unfoldable pub read_rows : State → String → ℕ → Sql Db (List Row)
unfolding rows_after cursor
read_rows s after limit = do
  row ← cursor after
  query (λ db. take limit (rows_after s row db.inbox))

-- SELECT data,state FROM inbox WHERE id=?
unfoldable pub find_row : String → List Row → Option Row
find_row id [] = none
find_row id (x ∷ xs) = if str_eq x.id id then some x else find_row id xs

-- Get(id)
unfoldable pub get_message : String → Sql Db (Option Row)
unfolding find_row
get_message id = query (λ db. find_row id db.inbox)

-- UPDATE inbox SET state=…
unfoldable pub set_states : (Row → State) → List Row → List Row
set_states f [] = []
set_states f (x ∷ xs) = record x { state = f x } ∷ set_states f xs

-- UPDATE inbox SET state=? WHERE id=?
unfoldable pub mark : String → State → List Row → List Row
unfolding set_states
mark id s = set_states (λ x. if str_eq x.id id then s else x.state)
