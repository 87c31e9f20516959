-- ===== src/Release/Outside/Quiet.antt =====
-- Actions that make only calls of one kind, with a rule for each way to build one.
use cross_session_codex.Common.{
  Bool, true, false, List, [], ◌∷◌, Option, none, some, if◌then◌else◌, All,
}
use cross_session_codex.Release.Outside.{
  Call, Reply, fails, absent, says, found, World, Outside, Act, ask, pure, stop, lift, continue,
  ◌>>=◌, require, text_of, text, settled, need, each, collect,
}

-- Every call that the action makes has the property.
pub record Makes {A : Type 0} (P : Call → Type 0) (m : Act A) : Type 0 where
  pub at : (outside : Outside) (w : World) → All P w.log → All P (m outside w).1.log

module _ {P : Call → Type 0} where
  pub Makes-ask : (c : Call) → P c → Makes P (ask c)
  unfolding ask
  Makes-ask c p = record { at = λ outside w h. (p, h) }

  pub Makes-pure : {A : Type 0} → (a : A) → Makes P (pure a)
  unfolding pure
  Makes-pure a = record { at = λ outside w h. h }

  pub Makes-stop : {A : Type 0} → Makes P (stop {A = A})
  unfolding stop
  Makes-stop = record { at = λ outside w h. h }

  pub Makes-lift : {A : Type 0} → (r : Option A) → Makes P (lift r)
  Makes-lift none = Makes-stop
  Makes-lift (some a) = Makes-pure a

  continue-Makes :
      {A B : Type 0}
      → (f : A → Act B) → ((a : A) → Makes P (f a))
      → (r : Option A) (outside : Outside) (w : World) → All P w.log
      → All P (continue r f outside w).1.log
  continue-Makes f h none outside w k = k
  continue-Makes f h (some a) outside w k = (h a).at outside w k

  pub Makes-bind :
      {A B : Type 0}
      → (m : Act A) (f : A → Act B) → Makes P m
      → ((a : A) → Makes P (f a))
      → Makes P (m >>= f)
  unfolding ◌>>=◌
  Makes-bind m f hm hf = record {
    at = λ outside w k.
        continue-Makes f hf (m outside w).0 outside (m outside w).1 (hm.at outside w k);
  }

  pub Makes-require : (b : Bool) → Makes P (require b)
  Makes-require true = Makes-pure tt
  Makes-require false = Makes-stop

  pub Makes-if :
      {A : Type 0} → (b : Bool) (m n : Act A) → Makes P m → Makes P n → Makes P (if b then m else n)
  Makes-if true m n h k = h
  Makes-if false m n h k = k

  Makes-text_of : (r : Reply) → Makes P (text_of r)
  Makes-text_of fails = Makes-stop
  Makes-text_of absent = Makes-stop
  Makes-text_of (says t) = Makes-pure t
  Makes-text_of (found k) = Makes-stop

  pub Makes-text : (c : Call) → P c → Makes P (text c)
  Makes-text c p = Makes-bind (ask c) text_of (Makes-ask c p) Makes-text_of

  Makes-settled : (r : Reply) → Makes P (settled r)
  Makes-settled fails = Makes-stop
  Makes-settled absent = Makes-pure tt
  Makes-settled (says t) = Makes-pure tt
  Makes-settled (found k) = Makes-pure tt

  pub Makes-need : (c : Call) → P c → Makes P (need c)
  Makes-need c p = Makes-bind (ask c) settled (Makes-ask c p) Makes-settled

  pub Makes-each :
      {A : Type 0}
      → (f : A → Act (Unit {0})) → ((a : A) → Makes P (f a))
      → (xs : List A) → Makes P (each f xs)
  Makes-each f h [] = Makes-pure tt
  Makes-each f h (x ∷ xs) = Makes-bind (f x) (λ _. each f xs) (h x) (λ _. Makes-each f h xs)

  pub Makes-collect :
      {A B : Type 0}
      → (f : A → Act B) → ((a : A) → Makes P (f a))
      → (xs : List A) → Makes P (collect f xs)
  Makes-collect f h [] = Makes-pure []
  Makes-collect f h (x ∷ xs) =
      Makes-bind (f x) (λ y. collect f xs >>= λ ys. pure (y ∷ ys)) (h x)
        (λ y.
          Makes-bind (collect f xs) (λ ys. pure (y ∷ ys)) (Makes-collect f h xs)
            (λ ys. Makes-pure (y ∷ ys)))
