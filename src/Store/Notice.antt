-- ===== src/Store/Notice.antt =====
-- store.go: `BeginWake`, `FinishWake` and `ResetDelivery`: the notice that wakes Codex.
use Prim.Native.String.{◌++◌ as str_append}
use Prim.Native.Char.{code}
use cross_session_codex.Common.{
  ℕ, ◌/◌, String, Bool, true, false, not, ◌&&◌, ◌||◌, Option, none, some, ◌==◌, str_eq,
  if◌then◌else◌,
}
use cross_session_codex.Numbers.{second}
use cross_session_codex.Sql.{
  Sql, pending_notice, nil_map, commit, rollback, pure, raise, query, exec, ◌>>=◌, ◌>>◌, transact,
}
use cross_session_codex.Store.{
  Db, unread, Wake, WakeState, attempted, submitted, recorded, uncertain, rejected,
}
use cross_session_codex.Store.Rows.{count}
use cross_session_codex.Store.Transition.{set_wake}

-- stringsWithoutHyphens(s)
unfoldable pub without_hyphens : String → String
without_hyphens String.[] = ""
without_hyphens (String.◌∷◌ c s) =
    let rest = without_hyphens s in if code c == b'-' then rest else String.◌∷◌ c rest

abbrev pub is_some : Option Wake → Bool
is_some none = false
is_some (some w) = true

unfoldable pub new_wake : String → ℕ → ℕ → Wake
unfolding without_hyphens
new_wake id rev now = record {
  id = id;
  name = str_append "cross_session_inbox_" (without_hyphens id);
  state = attempted;
  submitted = false;
  needs_manual_action = true;
  ack_revision = rev;
  created_at = now / second;
  detail = "";
}

-- BeginWake(id), at the time `now`
unfoldable pub begin_wake : String → ℕ → Sql Db (Option Wake)
unfolding count new_wake
begin_wake id now = transact (do
  existing ← query (λ db. db.metadata.wake)
  n ← count unread ""
  if n == 0 || is_some existing then pure (rollback none) else (do
    rev ← query (λ db. db.metadata.ack_revision)
    exec (set_wake (some (new_wake id rev now)))
    pure (commit (some (new_wake id rev now)))))

abbrev wake_code : WakeState → ℕ
wake_code attempted = 0
wake_code submitted = 1
wake_code recorded = 2
wake_code uncertain = 3
wake_code rejected = 4

abbrev pub same_wake : WakeState → WakeState → Bool
same_wake a b = wake_code a == wake_code b

-- str(wake, "id")
abbrev pub wake_id : Option Wake → String
wake_id none = ""
wake_id (some w) = w.id

-- The notice after an attempt ended in `state`, before the check for acknowledgements.
unfoldable pub update_wake : WakeState → String → Wake → Wake
update_wake state detail w = record w {
  state = state;
  detail = detail;
  submitted = same_wake state submitted || same_wake state recorded;
  needs_manual_action = same_wake state uncertain || same_wake state attempted;
}

-- What is left of it: nothing if the inbox is empty or was acknowledged in between.
unfoldable pub settle_wake : ℕ → ℕ → Wake → Option Wake
settle_wake n rev w =
    if n == 0 || (w.submitted && not (w.ack_revision == rev)) then none else some w

-- A write into the map of a missing notice panics.
unfoldable pub finished : WakeState → String → ℕ → ℕ → Option Wake → Sql Db (Option Wake)
unfolding update_wake settle_wake
finished state detail n rev wake = if same_wake state rejected then pure none else elim wake [
  | none ↦ raise nil_map
  | some w ↦ pure (settle_wake n rev (update_wake state detail w))
]

-- FinishWake(id, state, detail)
unfoldable pub finish_wake : String → WakeState → String → Sql Db Unit
unfolding count finished
finish_wake id state detail = transact (do
  wake ← query (λ db. db.metadata.wake)
  if not (str_eq (wake_id wake) id) then pure (rollback tt) else (do
    rev ← query (λ db. db.metadata.ack_revision)
    n ← count unread ""
    next ← finished state detail n rev wake
    exec (set_wake next)
    pure (commit tt)))

-- ResetDelivery()
unfoldable pub reset_delivery : Sql Db Unit
reset_delivery = transact (do
  wake ← query (λ db. db.metadata.wake)
  if is_some wake then raise pending_notice else (do
    exec (λ db. record db { metadata = record db.metadata { retry_at = 0 } })
    exec (λ db. record db { metadata = record db.metadata { delivery_waiting = none } })
    exec (λ db. record db { metadata = record db.metadata { delivery_error = none } })
    pure (commit tt)))
