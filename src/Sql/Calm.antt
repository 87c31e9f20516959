-- ===== src/Sql/Calm.antt =====
-- Runs in which no statement fails, put together from the runs of their parts.
use cross_session_codex.Common.{◌≡◌, ap}
use cross_session_codex.Sql.{
  Result, ok, World, Sql, Ending, commit, ◌>>=◌, continue, transact, finish, calm,
}

module _ {S A B : Type 0} (m : Sql S A) (f : A → Sql S B) (s : S) (a : A) (t : S) where
  pub bind-calm : m (calm s) ≡ (ok a, calm t) → (m >>= f) (calm s) ≡ f a (calm t)
  unfolding ◌>>=◌
  bind-calm h = ap (λ (x : Result A × World S). continue x.0 f x.1) h

module _ {S A : Type 0} (body : Sql S (Ending A)) (s : S) (a : A) (t : S) where
  pub transact-calm :
      body (calm s) ≡ (ok (commit a), calm t) → transact body (calm s) ≡ (ok a, calm t)
  unfolding transact
  transact-calm h = ap (λ (x : Result (Ending A) × World S). finish s x.0 x.1) h
