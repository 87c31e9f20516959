-- ===== src/Worker/Intake.antt =====
-- worker.go: which messages reach the store.
use cross_session_codex.Common.{ℕ, ◌≡◌, refl, ◌⊎◌, inl, inr, String, true, none, Bool-cases}
use cross_session_codex.Sql.{World, ◌>>=◌}
use cross_session_codex.Store.{Message}
use cross_session_codex.Worker.{Node, look, edit, admission, enqueue_status, drop}
use cross_session_codex.Worker.Receive.{is_loop, take_in, receive_message}

-- A message that loops, the worker's own or one that names its address among its hops, and a message
-- that the configuration refuses never reach the store: no statement runs, so that none of the faults
-- to come is met and the database stays as it is.
receive_message-turned_away :
    (identity : ℕ → String → String) (m : Message) (pid : ℕ) (start : String) (now : ℕ)
    (fresh : String) (w : World Node)
    → (is_loop pid m w.tables ≡ true) ⊎ (admission w.tables.config m ≡ none)
    → ((receive_message identity m pid start now fresh w).1.tables.db ≡ w.tables.db)
      × ((receive_message identity m pid start now fresh w).1.faults ≡ w.faults)
unfolding receive_message look ◌>>=◌ drop edit take_in enqueue_status
receive_message-turned_away identity m pid start now fresh w (inl loop) = rw loop (refl, refl)
receive_message-turned_away identity m pid start now fresh w (inr none_left) =
    elim (Bool-cases (is_loop pid m w.tables)) [
      | inl e ↦ rw e (refl, refl)
      | inr e ↦ rw e (rw none_left (refl, refl))
    ]
