-- ===== src/Store/Atomic.antt =====
-- store.go: the methods that run in a transaction change nothing when they fail.
use cross_session_codex.Common.{ℕ, ◌≡◌, refl, String, List}
use cross_session_codex.Sql.{Error, Result, ok, err, World, Sql, Ending, transact}
use cross_session_codex.Sql.Triple.{transact_atomic}
use cross_session_codex.Store.{Db, Message, State, WakeState}
use cross_session_codex.Store.Admission.{accept}
use cross_session_codex.Store.Transition.{transition_tx}
use cross_session_codex.Store.Expiry.{expire}
use cross_session_codex.Store.Notice.{begin_wake, finish_wake, reset_delivery}

-- What an action leaves behind: the tables it found, or a success.
abbrev pub Undone : {A : Type 0} → Db → Result A × World Db → Type 0
Undone saved (ok a, w) = Unit
Undone saved (err e, w) = w.tables ≡ saved

transact-Undone :
    {A : Type 0} (body : Sql Db (Ending A)) (w : World Db) → Undone w.tables (transact body w)
transact-Undone body w = undone (transact body w) (transact_atomic body w)
  where
    undone :
        {A : Type 0} (x : Result A × World Db)
        → ((e : Error) → x.0 ≡ err e → x.1.tables ≡ w.tables)
        → Undone w.tables x
    undone (ok a, v) h = tt
    undone (err e, v) h = h e refl

-- Whichever statement fails, the commit included, and for whatever reason, `Accept`, `Transition`,
-- `Expire`, `BeginWake`, `FinishWake` and `ResetDelivery` leave every table as it was.
pub errors_change_nothing :
    (w : World Db) (m : Message) (peer : String) (s before after : State) (now : ℕ) (id : String)
    (ids : List String) (outcome : WakeState) (detail : String)
    → Undone w.tables (accept m peer s now id w)
      × Undone w.tables (transition_tx ids before after w)
      × Undone w.tables (expire now w)
      × Undone w.tables (begin_wake id now w)
      × Undone w.tables (finish_wake id outcome detail w)
      × Undone w.tables (reset_delivery w)
unfolding accept transition_tx expire begin_wake finish_wake reset_delivery
errors_change_nothing w m peer s before after now id ids outcome detail = (
  transact-Undone _ w,
  transact-Undone _ w,
  transact-Undone _ w,
  transact-Undone _ w,
  transact-Undone _ w,
  transact-Undone _ w,
)
