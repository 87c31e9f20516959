-- ===== src/Store/Expiry.antt =====
-- store.go: `Expire`, which ends the wait of held messages and deletes old rows.
use cross_session_codex.Common.{
  ℕ, ◌+◌, ◌*◌, String, Bool, not, ◌&&◌, List, [], ◌∷◌, map, ltb, leb, if◌then◌else◌, contains, drop,
  select,
}
use cross_session_codex.Numbers.{second}
use cross_session_codex.Sql.{Sql, commit, pure, exec, ◌>>=◌, ◌>>◌, transact}
use cross_session_codex.Store.{Db, Row, unread, held, expired, same, Outgoing}
use cross_session_codex.Store.Rows.{read_rows}
use cross_session_codex.Store.Transition.{transition}

-- ORDER BY … DESC
module _ {A : Type 0} (key : A → ℕ) where
  unfoldable pub insert_desc : A → List A → List A
  insert_desc x [] = x ∷ []
  insert_desc x (y ∷ ys) =
      let rest = insert_desc x ys in if leb (key y) (key x) then x ∷ y ∷ ys else y ∷ rest

  unfoldable pub sort_desc : List A → List A
  unfolding insert_desc
  sort_desc [] = []
  sort_desc (x ∷ xs) = insert_desc x (sort_desc xs)

-- received_at < now-300
abbrev pub is_overdue : ℕ → Row → Bool
is_overdue now x = ltb (x.content.received_at + 300 * second) now

-- state NOT IN ('unread','held')
abbrev pub is_settled_row : Row → Bool
is_settled_row x = not (same x.state unread) && not (same x.state held)

abbrev pub week : ℕ
week = 604800 * second

-- DELETE FROM inbox WHERE state NOT IN ('unread','held') AND received<?
abbrev pub is_recent_or_open : ℕ → Row → Bool
is_recent_or_open now x = not (is_settled_row x && ltb (x.received + week) now)

unfoldable pub delete_old : ℕ → List Row → List Row
unfolding select
delete_old now = select (is_recent_or_open now)

-- DELETE FROM inbox WHERE id IN (SELECT … ORDER BY received DESC LIMIT -1 OFFSET 1000)
unfoldable pub surplus : List Row → List String
unfolding select sort_desc
surplus rows =
    map (λ (x : Row). x.id)
      (drop 1000 (sort_desc (λ (x : Row). x.received) (select is_settled_row rows)))

unfoldable pub delete_surplus : List Row → List Row
unfolding surplus select
delete_surplus rows = let ids = surplus rows in select (λ x. not (contains ids x.id)) rows

-- DELETE FROM outbound WHERE created<?
unfoldable pub delete_sent : ℕ → List Outgoing → List Outgoing
unfolding select
delete_sent now = select (λ x. not (ltb (x.created + week) now))

-- Expire(), at the time `now`
unfoldable pub expire : ℕ → Sql Db (List Row)
unfolding read_rows select transition delete_old delete_surplus delete_sent
expire now = transact (do
  items ← read_rows held "" 100
  let old = select (is_overdue now) items
  transition (map (λ (x : Row). x.content.id) old) held expired
  exec (λ db. record db { inbox = delete_old now db.inbox })
  exec (λ db. record db { inbox = delete_surplus db.inbox })
  exec (λ db. record db { outbound = delete_sent now db.outbound })
  pure (commit old))
