-- ===== src/Shutdown/Steps.antt =====
-- appserver_stop.go: what a chain of checks that passed says of each of them.
use cross_session_codex.Common.{◌≡◌, refl, Bool, true, false, Option, none, some}
use cross_session_codex.Shutdown.{StopError, Stop, done, halt, ◌>>=◌, ensure, obtain}

module _ {A B : Type 0} where
  pub bind-done :
      (m : Stop A) (f : A → Stop B) (b : B)
      → (m >>= f) ≡ done b
      → (a : A) × (m ≡ done a) × (f a ≡ done b)
  bind-done (done a) f b h = (a, refl, h)
  bind-done (halt e) f b h = absurd cc

  pub obtain-done :
      (e : StopError) (o : Option A) (f : A → Stop B) (b : B)
      → (obtain e o >>= f) ≡ done b
      → (a : A) × (o ≡ some a) × (f a ≡ done b)
  obtain-done e (some a) f b h = (a, refl, h)
  obtain-done e none f b h = absurd cc

pub ensure-done :
    {B : Type 0} (t : Bool) (e : StopError) (f : Unit {0} → Stop B) (b : B)
    → (ensure t e >>= f) ≡ done b
    → (t ≡ true) × (f tt ≡ done b)
ensure-done true e f b h = (refl, h)
ensure-done false e f b h = absurd cc

pub ensure-done_last : (t : Bool) (e : StopError) → ensure t e ≡ done tt → t ≡ true
ensure-done_last true e h = refl
ensure-done_last false e h = absurd cc

abbrev pub value_or : {A : Type 0} → A → Stop A → A
value_or d (done a) = a
value_or d (halt e) = d
