-- ===== src/Store/Page.antt =====
-- store.go: `Page`, one response of the inbox reader within its byte budget. How many bytes the
-- JSON encoder makes of a response is a parameter.
use cross_session_codex.Common.{
  ℕ, ◌+◌, ◌-◌, ◌*◌, ◌^◌, String, Bool, true, false, List, [], ◌∷◌, ◌++◌, Option, none, some, ltb,
  str_eq, if◌then◌else◌, length, take,
}
use cross_session_codex.Sql.{
  Result, ok, err, Sql, no_rows, over_budget, out_of_range, pure, lift, query, ◌>>=◌,
}
use cross_session_codex.Store.{Db, Row, State}
use cross_session_codex.Store.Rows.{count, rowid_of, rows_after, or_raise}

-- MaxReadResponse
abbrev pub max_read_response : ℕ
max_read_response = 8 * 2 ^ 20

pub record PageResult : Type 0 where
  pub messages : List Row
  pub remaining : ℕ
  pub has_more : Bool
  pub next_after : Option String

-- A message that fits no response is an error; else the page ends in front of it.
abbrev pub stop : List Row → Result (List Row)
stop [] = err over_budget
stop (m ∷ ms) = ok (m ∷ ms)

-- `size` is the length of one encoded message.
module _ (size : Row → ℕ) where
  -- The loop over the rows: take messages as long as they fit.
  unfoldable pub fill : ℕ → List Row → List Row → Result (List Row)
  fill used taken [] = ok taken
  fill used taken (x ∷ xs) =
      let next = fill (used + (size x + 1)) (taken ++ x ∷ []) xs in
      if ltb max_read_response (used + (size x + 1)) then stop taken else next

-- messages[len(messages)-1]["id"]
unfoldable pub last_id : List Row → Option String
last_id [] = none
last_id (x ∷ []) = some x.id
last_id (x ∷ y ∷ xs) = last_id (y ∷ xs)

unfoldable pub result_of : ℕ → List Row → Result PageResult
unfolding last_id
result_of available messages =
    let more = ltb (length messages) available in
    let partial : Option String → Result PageResult = elim [
      | none ↦ err out_of_range
      | some id ↦ ok (record {
        messages = messages;
        remaining = available - length messages;
        has_more = true;
        next_after = some id;
      })
    ] in
    if more
    then partial (last_id messages)
    else ok (record {
      messages = messages;
      remaining = available - length messages;
      has_more = false;
      next_after = none;
    })

-- The second lookup of the cursor, by `Page` itself.
unfoldable pub row_again : String → Sql Db ℕ
unfolding rowid_of
row_again after =
    if str_eq after ""
    then pure 0
    else (do found ← query (λ db. rowid_of after db.inbox); or_raise no_rows found)

-- `head_size` is the length of the encoded response that holds no message yet, by the number of
-- messages that are available.
module _ (head_size : ℕ → ℕ) (size : Row → ℕ) where
  -- Page(state, after, limit, info)
  unfoldable pub page : State → String → ℕ → Sql Db PageResult
  unfolding count row_again rows_after fill result_of
  page s after limit = do
    available ← count s after
    row ← row_again after
    rows ← query (λ db. take limit (rows_after s row db.inbox))
    messages ← lift (fill size (head_size available + 129) [] rows)
    lift (result_of available messages)
