-- ===== src/Worker/Upkeep.antt =====
-- worker.go: `maintenance` keeps a worker sound, and `notify` never repeats a notice.
use cross_session_codex.Common.{
  ℕ, refl, ◌==◌, ◌+◌, ◌*◌, ◌/◌, String, Bool, true, false, not, ◌&&◌, ◌||◌, List, [], ◌∷◌, Option,
  none, some, str_eq, ltb,
}
use cross_session_codex.Numbers.{second}
use cross_session_codex.Sql.{World}
use cross_session_codex.Sql.Triple.{Keeps, Keeps-pure, Keeps-bind, Keeps-if}
use cross_session_codex.Sql.Keeping.{Keeps-query, Keeps-raise}
use cross_session_codex.Store.{
  Row, unread, Wake, WakeState, submitted, recorded, uncertain, rejected,
}
use cross_session_codex.Store.Notice.{finish_wake, same_wake}
use cross_session_codex.Store.Moves.{IsValid-OnlyInbox}
use cross_session_codex.Store.Purge.{expire-Keeps}
use cross_session_codex.Store.Steady.{count-Keeps, exec-Keeps, begin_wake-Keeps, finish_wake-Keeps}
use cross_session_codex.Config.{Config, Owner}
use cross_session_codex.Worker.{Node, on_store}
use cross_session_codex.Worker.Delivering.{
  AppServer, NoticeAnswer, taken, turned_down, unclear, with_error, set_error, set_retry,
  set_activity, looked_up, reconcile, not_delivered, answered, attempt, start_notice, by_wake,
  notify, tell_expired, publish, unreachable, observed_thread, dialled, deliver, expiring, stop,
  by_owner, maintenance,
}
use cross_session_codex.Worker.Soundness.{
  IsSound, Keeps-on_store, Keeps-look, Keeps-aside, enqueue_status-IsSound,
}

set_error-IsSound : (e : Option String) → Keeps IsSound (set_error e)
unfolding set_error
set_error-IsSound e = Keeps-on_store _ (exec-Keeps IsValid-OnlyInbox (with_error e) (λ db. refl))

set_retry-IsSound : (at : ℕ) → Keeps IsSound (set_retry at)
unfolding set_retry
set_retry-IsSound at = Keeps-on_store _ (exec-Keeps IsValid-OnlyInbox _ (λ db. refl))

set_activity-IsSound :
    (now : ℕ) (state detail : String) → Keeps IsSound (set_activity now state detail)
unfolding set_activity
set_activity-IsSound now state detail = Keeps-aside _ (λ n. refl) (λ n. refl) (λ n. refl)

finish-IsSound :
    (id : String) (state : WakeState) (detail : String)
    → Keeps IsSound (on_store (finish_wake id state detail))
finish-IsSound id state detail =
    Keeps-on_store _ (finish_wake-Keeps IsValid-OnlyInbox id state detail)

module _ (app : AppServer) (now : ℕ) where
  looked_up-IsSound : (w : Wake) (o : Option Bool) → Keeps IsSound (looked_up app now w o)
  looked_up-IsSound w none = set_error-IsSound _
  looked_up-IsSound w (some true) =
      Keeps-bind _ _ (finish-IsSound w.id recorded _) (λ _. set_error-IsSound none)
  looked_up-IsSound w (some false) = Keeps-pure tt

  reconcile-IsSound : (w : Wake) → Keeps IsSound (reconcile app now w)
  unfolding reconcile
  reconcile-IsSound w = Keeps-bind _ _ (Keeps-look _) (λ last.
      Keeps-if
        (str_eq w.name ""
          || same_wake w.state recorded
          || not app.was_recorded && ltb now (last + 15 * second))
        _ _ (λ _. Keeps-pure tt)
        (λ _.
          Keeps-bind _ _ (Keeps-aside _ (λ n. refl) (λ n. refl) (λ n. refl))
            (λ _. looked_up-IsSound w (app.has_notice w.name))))

  not_delivered-IsSound :
      (w : Wake) (state : WakeState) (detail : String)
      → Keeps IsSound (not_delivered app now w state detail)
  not_delivered-IsSound w state detail =
      Keeps-bind _ _ (finish-IsSound w.id state detail)
        (λ _. Keeps-bind _ _ (set_retry-IsSound _) (λ _. set_error-IsSound _))

  answered-IsSound : (w : Wake) (a : NoticeAnswer) → Keeps IsSound (answered app now w a)
  answered-IsSound w taken = Keeps-bind _ _ (finish-IsSound w.id submitted _) (λ _.
      Keeps-bind _ _ (Keeps-aside _ (λ n. refl) (λ n. refl) (λ n. refl))
        (λ _. set_error-IsSound none))
  answered-IsSound w (turned_down detail) = not_delivered-IsSound w rejected detail
  answered-IsSound w (unclear detail) = not_delivered-IsSound w uncertain detail

  attempt-IsSound : (o : Option Wake) → Keeps IsSound (attempt app now o)
  attempt-IsSound none = Keeps-pure tt
  attempt-IsSound (some w) =
      Keeps-bind _ _ (Keeps-aside _ (λ n. refl) (λ n. refl) (λ n. refl))
        (λ _. answered-IsSound w (app.notice w.name))

  by_wake-IsSound : (fresh : String) (o : Option Wake) → Keeps IsSound (by_wake app now fresh o)
  unfolding start_notice
  by_wake-IsSound fresh (some w) = reconcile-IsSound w
  by_wake-IsSound fresh none = Keeps-bind _ _ (Keeps-on_store _ (Keeps-query _)) (λ retry.
      Keeps-if (ltb (now / second) retry) _ _ (λ _. Keeps-pure tt)
        (λ _.
          Keeps-bind _ _ (Keeps-on_store _ (begin_wake-Keeps IsValid-OnlyInbox fresh now))
            (λ wake. attempt-IsSound wake)))

  notify-IsSound : (fresh : String) → Keeps IsSound (notify app now fresh)
  unfolding notify
  notify-IsSound fresh = Keeps-bind _ _ (Keeps-on_store _ (count-Keeps unread "")) (λ n.
      Keeps-if (n == 0) _ _ (λ _. set_error-IsSound none)
        (λ _. Keeps-bind _ _ (Keeps-on_store _ (Keeps-query _)) (λ o. by_wake-IsSound fresh o)))

  tell_expired-IsSound : (xs : List Row) → Keeps IsSound (tell_expired app now xs)
  unfolding tell_expired
  tell_expired-IsSound [] = Keeps-pure tt
  tell_expired-IsSound (x ∷ xs) =
      Keeps-bind _ _ (enqueue_status-IsSound _ _ _ _) (λ _. tell_expired-IsSound xs)

  module _ (publishes : Bool) where
    publish-IsSound : Keeps IsSound (publish app now publishes)
    publish-IsSound = Keeps-if publishes _ _ (λ _. Keeps-pure tt) (λ _. Keeps-raise _)

    unreachable-IsSound : (detail : String) → Keeps IsSound (unreachable app now publishes detail)
    unreachable-IsSound detail =
        Keeps-bind _ _ (Keeps-aside _ (λ n. refl) (λ n. refl) (λ n. refl)) (λ _.
          Keeps-bind _ _ (set_activity-IsSound now "unknown" detail)
            (λ _. Keeps-bind _ _ (set_error-IsSound _) (λ _. publish-IsSound)))

    observed_thread-IsSound :
        (fresh : String) (o : Option Bool)
        → Keeps IsSound (observed_thread app now publishes fresh o)
    observed_thread-IsSound fresh none = unreachable-IsSound _
    observed_thread-IsSound fresh (some active) =
        Keeps-bind _ _ (Keeps-aside _ (λ n. refl) (λ n. refl) (λ n. refl)) (λ _.
          Keeps-bind _ _ (set_activity-IsSound now _ "")
            (λ _. Keeps-bind _ _ publish-IsSound (λ _. notify-IsSound fresh)))

    dialled-IsSound :
        (fresh : String) (missing : Bool) (e : Option String)
        → Keeps IsSound (dialled app now publishes fresh missing e)
    dialled-IsSound fresh true none =
        Keeps-bind _ _ (Keeps-aside _ (λ n. refl) (λ n. refl) (λ n. refl))
          (λ _. observed_thread-IsSound fresh _)
    dialled-IsSound fresh true (some e) =
        Keeps-bind _ _ (Keeps-aside _ (λ n. refl) (λ n. refl) (λ n. refl))
          (λ _. unreachable-IsSound e)
    dialled-IsSound fresh false _ =
        Keeps-bind _ _ (Keeps-look _) (λ attached. observed_thread-IsSound fresh _)

    deliver-IsSound : (fresh : String) → Keeps IsSound (deliver app now publishes fresh)
    unfolding deliver
    deliver-IsSound fresh = Keeps-bind _ _ (Keeps-look _) (λ manual.
        Keeps-if manual _ _
          (λ _. Keeps-bind _ _ (set_activity-IsSound now _ _) (λ _. publish-IsSound))
          (λ _. Keeps-bind _ _ (Keeps-look _) (λ missing. dialled-IsSound fresh missing app.dial)))

    expiring-IsSound : (fresh : String) → Keeps IsSound (expiring app now publishes fresh)
    expiring-IsSound fresh =
        Keeps-bind _ _ (Keeps-on_store _ (expire-Keeps now))
          (λ old. Keeps-bind _ _ (tell_expired-IsSound old) (λ _. deliver-IsSound fresh))

    stop-IsSound : Keeps IsSound (stop app now publishes)
    stop-IsSound = Keeps-aside _ (λ n. refl) (λ n. refl) (λ n. refl)

    by_owner-IsSound :
        (fresh detail : String) (o : Owner)
        → Keeps IsSound (by_owner app now publishes fresh detail o)
    unfolding by_owner
    by_owner-IsSound fresh detail Owner.host_unverified =
        Keeps-bind _ _ (Keeps-aside _ (λ n. refl) (λ n. refl) (λ n. refl)) (λ _.
          Keeps-bind _ _ (set_activity-IsSound now _ _) (λ _.
            Keeps-bind _ _ (set_error-IsSound _)
              (λ _. Keeps-bind _ _ publish-IsSound (λ _. Keeps-raise _))))
    by_owner-IsSound fresh detail Owner.owned = Keeps-bind _ _ (Keeps-look _) (λ unverified.
        Keeps-if unverified _ _
          (λ _. Keeps-bind _ _ (set_error-IsSound none) (λ _.
            Keeps-bind _ _ (Keeps-aside _ (λ n. refl) (λ n. refl) (λ n. refl))
              (λ _. expiring-IsSound fresh)))
          (λ _. expiring-IsSound fresh))
    by_owner-IsSound fresh detail _ = stop-IsSound

    maintenance-Keeps :
        (fresh detail : String) (owner : Config → Owner)
        → Keeps IsSound (maintenance app now publishes fresh detail owner)
    unfolding maintenance
    maintenance-Keeps fresh detail owner = Keeps-bind _ _ (Keeps-look _) (λ over.
        Keeps-if over _ _ (λ _. stop-IsSound)
          (λ _. Keeps-bind _ _ (Keeps-look _) (λ answer. by_owner-IsSound fresh detail answer)))

-- One pass of the maintenance keeps the worker sound, whatever the app-server, the owner's process
-- and the registration answer and whichever statement fails.
pub maintenance-IsSound :
    (app : AppServer) (now : ℕ) (publishes : Bool) (fresh detail : String) (owner : Config → Owner)
    (w : World Node)
    → IsSound w.tables
    → IsSound (maintenance app now publishes fresh detail owner w).1.tables
maintenance-IsSound app now publishes fresh detail owner w s =
    (maintenance-Keeps app now publishes fresh detail owner).at w s
