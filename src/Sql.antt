-- ===== src/Sql.antt =====
-- internal/bridge/store.go: statements, transactions and errors of the `Store` methods.
-- A statement may fail at any time: `faults` says of each statement to come whether it does.
pub mod Triple
pub mod Calm
pub mod Keeping
use cross_session_codex.Common.{Bool, true, false, List, [], ◌∷◌}

pub data Error : Type 0 where
  sql_fault cursor_gone no_rows constraint over_budget inbox_full pending_notice nil_map
        out_of_range bad_frame bad_arguments bad_config unknown_message no_target same_peer not_sent
        no_owner owner_gone host_unverified name_taken not_attached not_saved not_published
        bad_state :
      Error

pub data Result {ℓ} (A : Type ℓ) : Type ℓ where
  ok : A → Result A
  err : Error → Result A

-- The tables, and the faults that the next statements meet; where the list ends none follows.
pub record World (S : Type 0) : Type 0 where
  pub tables : S
  pub faults : List Bool

abbrev pub Sql : Type 0 → Type 0 → Type 0
Sql S A = World S → Result A × World S

-- How the body of a transaction ends: with a commit, or by a return that rolls back.
pub data Ending (A : Type 0) : Type 0 where
  commit rollback : A → Ending A

module _ {S A : Type 0} where
  unfoldable pub pure : A → Sql S A
  pure a w = (ok a, w)

  unfoldable pub raise : Error → Sql S A
  raise e w = (err e, w)

  abbrev faulty : List Bool → Sql S A → Sql S A
  faulty [] m w = m w
  faulty (true ∷ fs) m w = (err sql_fault, record w { faults = fs })
  faulty (false ∷ fs) m w = m (record w { faults = fs })

  -- A statement: it fails and changes nothing, or it runs.
  pub statement : (S → Result A × S) → Sql S A
  statement f w = faulty w.faults (λ v. let (r, t) = f v.tables in (r, record v { tables = t })) w

  pub query : (S → A) → Sql S A
  unfolding statement
  query f = statement (λ t. (ok (f t), t))

  unfoldable pub lift : Result A → Sql S A
  lift r w = (r, w)

pub exec : {S : Type 0} → (S → S) → Sql S (Unit {0})
unfolding statement
exec f = statement (λ t. (ok tt, f t))

module _ {S A B : Type 0} where
  abbrev pub continue : Result A → (A → Sql S B) → Sql S B
  continue (ok a) f w = f a w
  continue (err e) f w = (err e, w)

  infixl 5 ◌>>=◌ ◌>>◌
  unfoldable pub ◌>>=◌ : Sql S A → (A → Sql S B) → Sql S B
  unfolding pure raise lift query exec
  ◌>>=◌ m f w = let (r, v) = m w in continue r f v

  abbrev pub ◌>>◌ : Sql S A → Sql S B → Sql S B
  m >> n = m >>= λ _. n

module _ {S A : Type 0} where
  abbrev close : S → Result A → Sql S A
  close saved (ok a) w = (ok a, w)
  close saved (err e) w = (err e, record w { tables = saved })

  -- tx.Commit()
  commit_tx : A → Sql S A
  unfolding statement
  commit_tx a = statement (λ t. (ok a, t))

  -- What the body of a transaction leaves behind, over the tables that it began with.
  finish : S → Result (Ending A) → Sql S A
  unfolding commit_tx
  finish saved (err e) w = (err e, record w { tables = saved })
  finish saved (ok (rollback a)) w = (ok a, record w { tables = saved })
  finish saved (ok (commit a)) w = let (r, v) = commit_tx a w in close saved r v

  run_tx : Sql S (Ending A) → Result (Unit {0}) → Sql S A
  unfolding finish
  run_tx body (ok _) w = let (r, v) = body w in finish w.tables r v
  run_tx body (err e) w = (err e, w)

  -- tx := db.Begin(); defer tx.Rollback(); body
  unfoldable pub transact : Sql S (Ending A) → Sql S A
  unfolding run_tx exec
  transact body w = let (r, v) = exec (λ t. t) w in run_tx body r v

-- A run in which no statement fails.
abbrev pub calm : {S : Type 0} → S → World S
calm t = record { tables = t; faults = [] }
