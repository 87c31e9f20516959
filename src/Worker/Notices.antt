-- ===== src/Worker/Notices.antt =====
-- worker.go: `notify` hands the app-server no second notice while the fate of one is open.
use mathlib.Core.Path.{subst}
use cross_session_codex.Common.{
  ℕ, ◌≡◌, refl, sym, ap, ◌∙◌, ◌==◌, ◌+◌, ◌*◌, String, Bool, true, false, not, ◌&&◌, ◌||◌, List,
  Option, none, some, str_eq, ltb,
}
use cross_session_codex.Numbers.{second}
use cross_session_codex.Sql.{World, Sql, query, exec, continue, ◌>>=◌}
use cross_session_codex.Sql.Triple.{Keeps, Keeps-pure, Keeps-bind, Keeps-if}
use cross_session_codex.Sql.Keeping.{Leads, Leads-bind, Leads-if, query_cases}
use cross_session_codex.Store.{Db, unread, Wake, recorded}
use cross_session_codex.Store.Notice.{same_wake}
use cross_session_codex.Store.Steady.{count-Keeps}
use cross_session_codex.Worker.{Node, on_store}
use cross_session_codex.Worker.Delivering.{
  AppServer, with_error, set_error, looked_up, reconcile, by_wake, notify,
}
use cross_session_codex.Worker.Soundness.{Keeps-look, Keeps-edit}

-- Nothing was handed to the app-server since.
abbrev Sent : List String → Node → Type 0
Sent log n = n.notices ≡ log

abbrev Pending : List String → Wake → Node → Type 0
Pending log v n = (n.notices ≡ log) × (n.db.metadata.wake ≡ some v)

module _ (log : List String) where
  on_store-Sent : {A : Type 0} (m : Sql Db A) → Keeps (Sent log) (on_store m)
  unfolding on_store
  on_store-Sent m = record { at = λ w p. p }

  set_error-Sent : (e : Option String) → Keeps (Sent log) (set_error e)
  unfolding set_error
  set_error-Sent e = on_store-Sent (exec (with_error e))

  module _ (app : AppServer) (now : ℕ) where
    looked_up-Sent : (w : Wake) (o : Option Bool) → Keeps (Sent log) (looked_up app now w o)
    looked_up-Sent w none = set_error-Sent _
    looked_up-Sent w (some true) = Keeps-bind _ _ (on_store-Sent _) (λ _. set_error-Sent none)
    looked_up-Sent w (some false) = Keeps-pure tt

    reconcile-Sent : (w : Wake) → Keeps (Sent log) (reconcile app now w)
    unfolding reconcile
    reconcile-Sent w = Keeps-bind _ _ (Keeps-look _) (λ last.
        Keeps-if
          (str_eq w.name ""
            || same_wake w.state recorded
            || not app.was_recorded && ltb now (last + 15 * second))
          _ _ (λ _. Keeps-pure tt)
          (λ _.
            Keeps-bind _ _ (Keeps-edit _ (λ n p. p))
              (λ _. looked_up-Sent w (app.has_notice w.name))))

    branch :
        (fresh : String) (v : Wake) (o : Option Wake)
        → o ≡ some v
        → (w : World Node) → Sent log w.tables
        → Sent log (by_wake app now fresh o w).1.tables
    branch fresh v o e w p =
        subst (λ k. Sent log (by_wake app now fresh k w).1.tables) (sym e)
          ((reconcile-Sent v).at w p)

    -- The reading of the pending notice, and what follows it.
    read-Sent :
        (fresh : String) (v : Wake)
        → Leads
            (Pending log v)
            (on_store (query (λ db. db.metadata.wake)) >>= by_wake app now fresh)
            (Sent log)
    unfolding ◌>>=◌ on_store
    read-Sent fresh v = record {
      at = λ w p.
          query_cases
            (λ x.
              Sent log
                (continue x.0 (by_wake app now fresh) (record {
                  tables = record w.tables { db = x.1.tables };
                  faults = x.1.faults;
                })).1.tables)
            (λ (db : Db). db.metadata.wake) (record { tables = w.tables.db; faults = w.faults })
            (λ u same.
              branch fresh v u.tables.metadata.wake (ap (λ (db : Db). db.metadata.wake) same ∙ p.1)
                _ p.0)
            (λ u same. p.0);
    }

    notify-Leads :
        (fresh : String) (v : Wake) → Leads (Pending log v) (notify app now fresh) (Sent log)
    unfolding notify on_store
    notify-Leads fresh v =
        Leads-bind _ _
          (record {
            at = λ w p.
                (p.0, (count-Keeps {P = λ db. db.metadata.wake ≡ some v} unread "").at _ p.1);
          })
          (λ t p. p.0)
          (λ n.
            Leads-if (n == 0) _ _ (record { at = λ w p. (set_error-Sent none).at w p.0 })
              (read-Sent fresh v))

-- While a notice is pending, whatever became of it and whatever the app-server answers now, `notify`
-- hands the app-server no other one, whichever statement fails: a missing record in the history does
-- not prove that an earlier write failed.
pub notify-pending :
    (app : AppServer) (now : ℕ) (fresh : String) (v : Wake) (w : World Node)
    → w.tables.db.metadata.wake ≡ some v
    → (notify app now fresh w).1.tables.notices ≡ w.tables.notices
notify-pending app now fresh v w e = (notify-Leads w.tables.notices app now fresh v).at w (refl, e)
