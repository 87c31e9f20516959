-- ===== src/Store/Admission.antt =====
-- store.go: `Accept`, which takes a message in or says why it is dropped.
use cross_session_codex.Common.{
  ℕ, suc, ◌+◌, ◌*◌, String, Bool, false, ◌&&◌, ◌||◌, List, [], ◌∷◌, ◌++◌, Option, none, some, ltb,
  leb, str_eq, if◌then◌else◌, length,
}
use cross_session_codex.Numbers.{second}
use cross_session_codex.Sql.{
  Result, ok, err, Sql, no_rows, constraint, Ending, commit, rollback, pure, statement, query, exec,
  ◌>>=◌, ◌>>◌, transact,
}
use cross_session_codex.Store.{
  Db, Row, Message, State, unread, held, expired, same, Reason, duplicate, rate_limit, full_queue,
}
use cross_session_codex.Store.Rows.{count, or_raise, mark}

-- The message as stored, with the one that was evicted for it, or the reason of the refusal.
pub data Acceptance : Type 0 where
  taken : Message → Option Message → Acceptance
  refused : Reason → Acceptance

-- SELECT 1 FROM inbox WHERE peer=? AND wire_id=?
unfoldable pub known : String → String → List Row → Bool
known peer wire_id [] = false
known peer wire_id (x ∷ xs) =
    str_eq x.peer peer && str_eq x.wire_id wire_id || known peer wire_id xs

-- SELECT data FROM inbox WHERE peer=? AND received>?: the last ten seconds of the peer
unfoldable pub recent : String → ℕ → List Row → List Message
recent peer now [] = []
recent peer now (x ∷ xs) =
    let rest = recent peer now xs in
    if str_eq x.peer peer && ltb now (x.received + 10 * second) then x.content ∷ rest else rest

-- old["body"] == message["body"] for one of them
unfoldable pub has_body : String → List Message → Bool
has_body body [] = false
has_body body (m ∷ ms) = str_eq m.body body || has_body body ms

-- SELECT id,data FROM inbox WHERE state='held' ORDER BY received LIMIT 1
abbrev earlier : Row → Option Row → Row
earlier x none = x
earlier x (some y) = if leb x.received y.received then x else y

unfoldable pub oldest_held : List Row → Option Row
oldest_held [] = none
oldest_held (x ∷ xs) =
    let rest = oldest_held xs in if same x.state held then some (earlier x rest) else rest

unfoldable pub evict : Sql Db (Option Message)
unfolding oldest_held mark
evict = do
  found ← query (λ db. oldest_held db.inbox)
  row ← or_raise no_rows found
  exec (λ db. record db { inbox = mark row.id expired db.inbox })
  pure (some row.content)

-- An id that the primary key has.
unfoldable pub has_id : String → List Row → Bool
has_id id [] = false
has_id id (x ∷ xs) = str_eq x.id id || has_id id xs

-- One more than the largest rowid.
unfoldable pub next_rowid : List Row → ℕ
next_rowid [] = 1
next_rowid (x ∷ xs) = let n = next_rowid xs in if leb n x.rowid then suc x.rowid else n

-- INSERT INTO inbox VALUES (?,?,?,?,?,?), with the keys of the table
unfoldable pub insert_row : String → State → Message → Db → Result (Unit {0}) × Db
unfolding has_id known next_rowid
insert_row peer s m db =
    if has_id m.id db.inbox || known peer m.wire_id db.inbox then (err constraint, db) else (
      ok tt,
      record db {
        inbox =
            db.inbox
            ++ record {
              rowid = next_rowid db.inbox;
              id = m.id;
              wire_id = m.wire_id;
              peer = peer;
              received = m.received_at;
              state = s;
              content = m;
            }
              ∷ [];
      },
    )

-- if state == "held" && n >= 100
unfoldable pub make_room : State → ℕ → Sql Db (Option Message)
unfolding evict
make_room s n = if same s held && leb 100 n then evict else pure none

-- The insertion, after the checks. `fresh` is the new UUID.
unfoldable pub admit : Message → String → State → ℕ → String → Sql Db (Ending Acceptance)
unfolding make_room insert_row count
admit m peer s now fresh = do
  n ← count s ""
  if same s unread && leb 50 n then pure (rollback (refused full_queue)) else (do
    evicted ← make_room s n
    let accepted : Message = record m { id = fresh; received_at = now }
    statement (insert_row peer s accepted)
    pure (commit (taken accepted evicted)))

-- Accept(message, identity, state), at the time `now` and with `fresh` for the new UUID
unfoldable pub accept : Message → String → State → ℕ → String → Sql Db Acceptance
unfolding known recent has_body admit
accept m peer s now fresh = transact (do
  exists ← query (λ db. known peer m.wire_id db.inbox)
  if exists then pure (rollback (refused duplicate)) else (do
    recents ← query (λ db. recent peer now db.inbox)
    if has_body m.body recents
        then pure (rollback (refused duplicate))
        else if leb 20 (length recents)
        then pure (rollback (refused rate_limit))
        else admit m peer s now fresh))
