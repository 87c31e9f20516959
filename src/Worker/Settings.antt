-- ===== src/Worker/Settings.antt =====
-- worker.go: `configure` keeps a worker sound.
use cross_session_codex.Common.{refl, Bool, true, false, List, [], ◌∷◌, Option, none, some, leb}
use cross_session_codex.Json.{Fields}
use cross_session_codex.Sql.{Error, World, pure}
use cross_session_codex.Sql.Triple.{Keeps, Keeps-pure, Keeps-bind, Keeps-if}
use cross_session_codex.Sql.Keeping.{Keeps-raise, Keeps-lift}
use cross_session_codex.Store.{Row, Message, State, unread, held}
use cross_session_codex.Store.Moves.{IsValid-OnlyInbox}
use cross_session_codex.Store.Steady.{count-Keeps, read_rows-Keeps, reset_delivery-Keeps}
use cross_session_codex.Config.{Config, Checked}
use cross_session_codex.Worker.{Node}
use cross_session_codex.Worker.Configure.{
  Surroundings, options, checked, owned_or_error, must, set_config, settle_held, settle_all,
  change_delivery, is_changed, forget_client, prepare, adopt, configure,
}
use cross_session_codex.Worker.Soundness.{
  IsSound, Keeps-on_store, Keeps-look, Keeps-aside, enqueue_status-IsSound, signal-IsSound,
}
use cross_session_codex.Worker.Operations.{move-IsSound}

must-IsSound : (b : Bool) (e : Error) → Keeps IsSound (must b e)
must-IsSound true e = Keeps-pure tt
must-IsSound false e = Keeps-raise e

set_config-IsSound : (c : Config) → Keeps IsSound (set_config c)
set_config-IsSound c = Keeps-aside _ (λ n. refl) (λ n. refl) (λ n. refl)

forget_client-IsSound : Keeps IsSound forget_client
forget_client-IsSound = Keeps-aside _ (λ n. refl) (λ n. refl) (λ n. refl)

settle_held-IsSound : (o : Option State) (m : Message) → Keeps IsSound (settle_held o m)
unfolding settle_held
settle_held-IsSound (some unread) m =
    Keeps-bind _ _ (Keeps-on_store _ (count-Keeps unread "")) (λ n.
      Keeps-if (leb 50 n) _ _ (λ _. Keeps-pure false)
        (λ _.
          Keeps-bind _ _ (move-IsSound (m.id ∷ []) held unread refl)
            (λ _. Keeps-bind _ _ (enqueue_status-IsSound _ _ _ _) (λ _. Keeps-pure true))))
settle_held-IsSound (some _) m = Keeps-pure true
settle_held-IsSound none m =
    Keeps-bind _ _ (move-IsSound (m.id ∷ []) held State.declined refl)
      (λ _. Keeps-bind _ _ (enqueue_status-IsSound _ _ _ _) (λ _. Keeps-pure true))

settle_all-IsSound : (xs : List Row) → Keeps IsSound (settle_all xs)
unfolding settle_all
settle_all-IsSound [] = Keeps-pure tt
settle_all-IsSound (x ∷ xs) = Keeps-bind _ _ (Keeps-look _) (λ verdict.
    Keeps-bind _ _ (settle_held-IsSound verdict x.content)
      (λ more. go (settle_all-IsSound xs) more))
  where
    go :
        Keeps IsSound (settle_all xs)
        → (more : Bool) → Keeps IsSound (elim more [ true ↦ settle_all xs | false ↦ pure tt ])
    go rest true = rest
    go rest false = Keeps-pure tt

module _ (around : Surroundings) where
  change_delivery-IsSound : (c : Config) → Keeps IsSound (change_delivery around c)
  unfolding change_delivery
  change_delivery-IsSound c =
      Keeps-bind _ _ (must-IsSound _ _)
        (λ _. Keeps-on_store _ (reset_delivery-Keeps IsValid-OnlyInbox))

  prepare-IsSound : (old c : Config) → Keeps IsSound (prepare around old c)
  unfolding prepare
  prepare-IsSound old c = Keeps-bind _ _ (Keeps-lift (owned_or_error (around.owner c))) (λ _.
      Keeps-bind _ _ (must-IsSound _ _) (λ _.
        Keeps-bind _ _
          (Keeps-if (is_changed old c) _ _ (λ _. change_delivery-IsSound c) (λ _. Keeps-pure tt))
          (λ _. must-IsSound _ _)))

  adopt-IsSound : (old c : Config) → Keeps IsSound (adopt around old c)
  unfolding adopt
  adopt-IsSound old c = Keeps-bind _ _ (set_config-IsSound c) (λ _.
      Keeps-if (around.publishes c) _ _ (λ _. Keeps-pure tt)
        (λ _. Keeps-bind _ _ (set_config-IsSound old) (λ _. Keeps-raise _)))

  configure-Keeps :
      (apply : Fields → Config → Checked Config) (args : Fields)
      → Keeps IsSound (configure around apply args)
  unfolding configure
  configure-Keeps apply args = Keeps-bind _ _ (Keeps-look _) (λ old.
      Keeps-bind _ _ (Keeps-lift (checked (apply (options args) old))) (λ c.
        Keeps-bind _ _ (prepare-IsSound old c) (λ _. Keeps-bind _ _ (adopt-IsSound old c) (λ _.
          Keeps-bind _ _
            (Keeps-if (is_changed old c) _ _ (λ _. forget_client-IsSound) (λ _. Keeps-pure tt))
            (λ _.
              Keeps-bind _ _ (Keeps-on_store _ (read_rows-Keeps held "" 100))
                (λ rows. Keeps-bind _ _ (settle_all-IsSound rows) (λ _. signal-IsSound)))))))

-- A new configuration, accepted or refused, keeps the worker sound, whichever statement fails: the
-- held messages that it releases never make more than 50 unread.
pub configure-IsSound :
    (around : Surroundings) (apply : Fields → Config → Checked Config) (args : Fields)
    (w : World Node)
    → IsSound w.tables
    → IsSound (configure around apply args w).1.tables
configure-IsSound around apply args w s = (configure-Keeps around apply args).at w s
