-- ===== src/Store/Acknowledgement.antt =====
-- store.go: what a transition of unread messages does when no statement fails.
use cross_session_codex.Common.{
  ℕ, ◌+◌, ◌%◌, ◌^◌, ◌≡◌, refl, sym, ◌∙◌, String, ◌&&◌, not, List, [], ◌∷◌, ◌++◌, append-nil,
  append_assoc, Option, none, arith, ltb, ◌==◌, inl, inr, Bool-cases, if◌then◌else◌,
}
use cross_session_codex.Sql.{ok, pure, ◌>>=◌, calm}
use cross_session_codex.Sql.Calm.{bind-calm, transact-calm}
use cross_session_codex.Store.{Db, State, unread, Wake}
use cross_session_codex.Store.Rows.{count, count_rows}
use cross_session_codex.Store.Reads.{
  moved_rows, moved_ids, read_all, new_reads, moved_rows-read_all, moved_ids-new_reads,
}
use cross_session_codex.Store.Transition.{
  affected, move_rows, move, move_all, check_room, is_settled, is_empty, acknowledge, clear_notice,
  transition, transition_tx,
}

move_all-calm :
    (before after : State) (ids changed : List String) (db : Db)
    → move_all before after ids changed (calm db) ≡ (
      ok (changed ++ moved_ids before after ids db.inbox),
      calm (record db { inbox = moved_rows before after ids db.inbox }),
    )
unfolding move_all move moved_rows moved_ids ◌>>=◌
move_all-calm before after [] changed db = rw append-nil
move_all-calm before after (id ∷ ids) changed db =
    let next = record db { inbox = move_rows id before after db.inbox } in
    elim (Bool-cases (ltb 0 (affected id before db.inbox))) [
      | inl e ↦ rw e (move_all-calm before after ids (changed ++ id ∷ []) next ∙ rw append_assoc)
      | inr e ↦ rw e (move_all-calm before after ids changed next)
    ]

-- What becomes of a pending notice when `changed` messages were acknowledged and `left` are unread.
abbrev pub notice_after : List String → ℕ → Option Wake → Option Wake
notice_after changed left wake =
    if left == 0 then none else if not (is_empty changed) && is_settled wake then none else wake

-- The metadata after `acknowledge`, and after `clear_notice`.
acknowledged : List String → Db → Db
acknowledged changed db = if is_empty changed then db else record db {
  metadata = record db.metadata {
    ack_revision = (db.metadata.ack_revision + 1) % 2 ^ 64;
    wake = if is_settled db.metadata.wake then none else db.metadata.wake;
  };
}

cleared : Db → Db
cleared db =
    if count_rows unread 0 db.inbox == 0
    then record db { metadata = record db.metadata { wake = none; delivery_waiting = none } }
    else db

acknowledge-calm :
    (changed : List String) (db : Db)
    → acknowledge unread changed (calm db) ≡ (ok tt, calm (acknowledged changed db))
unfolding acknowledge acknowledged ◌>>=◌
acknowledge-calm [] db = refl
acknowledge-calm (x ∷ xs) db = elim (Bool-cases (is_settled db.metadata.wake)) [
  | inl e ↦ rw e
  | inr e ↦ rw e
]

clear_notice-calm : (db : Db) → clear_notice (calm db) ≡ (ok tt, calm (cleared db))
unfolding clear_notice cleared count ◌>>=◌
clear_notice-calm db = elim (Bool-cases (count_rows unread 0 db.inbox == 0)) [
  | inl e ↦ rw e
  | inr e ↦ rw e
]

after_acknowledgement : List String → Db → Db
after_acknowledgement ids db = cleared (
    acknowledged (moved_ids unread State.read ids db.inbox)
      (record db { inbox = moved_rows unread State.read ids db.inbox }))

transition-calm :
    (ids : List String) (db : Db)
    → transition ids unread State.read (calm db)
      ≡ (ok (moved_ids unread State.read ids db.inbox), calm (after_acknowledgement ids db))
unfolding transition check_room after_acknowledgement ◌>>=◌
transition-calm ids db =
    let changed = moved_ids unread State.read ids db.inbox in
    let moved = record db { inbox = moved_rows unread State.read ids db.inbox } in
    bind-calm (move_all unread State.read ids []) _ db changed moved
      (move_all-calm unread State.read ids [] db)
    ∙ bind-calm (acknowledge unread changed) _ moved tt _ (acknowledge-calm changed moved)
    ∙ bind-calm clear_notice (λ _. pure changed) (acknowledged changed moved) tt
        (cleared (acknowledged changed moved)) (clear_notice-calm (acknowledged changed moved))

acknowledgement-calm :
    (ids : List String) (db : Db)
    → transition_tx ids unread State.read (calm db)
      ≡ (ok (moved_ids unread State.read ids db.inbox), calm (after_acknowledgement ids db))
unfolding transition_tx ◌>>=◌
acknowledgement-calm ids db = transact-calm _ db (moved_ids unread State.read ids db.inbox) _ (
    bind-calm (transition ids unread State.read) _ db (moved_ids unread State.read ids db.inbox) _
      (transition-calm ids db))

-- With no failing statement an acknowledgement returns the ids of unread messages, each once and in the
-- order of the call; it makes exactly the unread messages with one of the ids read and leaves every other
-- row as it is; it steps the revision if there is such an id; and it drops the notice if it was settled
-- then, or if nothing is left unread: a notice of unknown fate stays while messages are unread.
pub acknowledge_lem :
    (ids : List String) (db : Db)
    → ((transition_tx ids unread State.read (calm db)).0 ≡ ok (new_reads [] ids db.inbox))
      × ((transition_tx ids unread State.read (calm db)).1.tables.inbox ≡ read_all ids db.inbox)
      × ((transition_tx ids unread State.read (calm db)).1.tables.metadata.ack_revision ≡ (
          if is_empty (new_reads [] ids db.inbox)
          then db.metadata.ack_revision
          else (db.metadata.ack_revision + 1) % 2 ^ 64))
      × ((transition_tx ids unread State.read (calm db)).1.tables.metadata.wake
          ≡ notice_after
              (new_reads [] ids db.inbox)
              (count_rows unread 0 (read_all ids db.inbox))
              db.metadata.wake)
      × ((transition_tx ids unread State.read (calm db)).1.tables.outbound ≡ db.outbound)
acknowledge_lem ids db =
    rw
      (
        acknowledgement-calm,
        sym (moved_ids-new_reads ids db.inbox),
        sym (moved_rows-read_all ids db.inbox),
      )
      (unfold after_acknowledgement acknowledged cleared in
        (refl, ground arith, ground arith, ground arith, ground arith))
