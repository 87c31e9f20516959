-- ===== src/Sql/Triple.antt =====
-- What a database action ensures, whichever statements fail: one rule for each way to build one.
use cross_session_codex.Common.{
  ◌≡◌, refl, sym, ◌∙◌, Bool, true, false, List, [], ◌∷◌, if◌then◌else◌,
}
use mathlib.Core.Path.{subst}
use cross_session_codex.Sql.{
  Error, sql_fault, Result, ok, err, World, Sql, Ending, commit, rollback, pure, raise, lift,
  statement, query, exec, ◌>>=◌, transact, finish, run_tx, continue, close, faulty,
}

-- An error has no postcondition here: a transaction is rolled back after one.
abbrev pub After {ℓ} : {S A : Type 0} → (A → S → Type ℓ) → Result A → S → Type ℓ
After Q (ok a) t = Q a t
After Q (err e) t = Unit

After-all {ℓ} : {S A : Type 0} (P : S → Type ℓ) (r : Result A) (t : S) → P t → After (λ _. P) r t
After-all P (ok a) t h = h
After-all P (err e) t h = tt

pub record Triple {ℓ} {S A : Type 0} (P : S → Type ℓ) (m : Sql S A) (Q : A → S → Type ℓ)
    : Type ℓ where
  pub at : (w : World S) → P w.tables → After Q (m w).0 (m w).1.tables

-- An invariant that an action keeps whether it returns or fails.
pub record Keeps {ℓ} {S A : Type 0} (P : S → Type ℓ) (m : Sql S A) : Type ℓ where
  pub at : (w : World S) → P w.tables → P (m w).1.tables

-- A statement runs on the tables that it was given, or fails and leaves them.
pub faulty_elim {ℓ} :
    {S A : Type 0} (R : Result A × World S → Type ℓ) (m : Sql S A) (fs : List Bool) (w : World S)
    → ((v : World S) → v.tables ≡ w.tables → R (m v))
    → ((v : World S) → v.tables ≡ w.tables → R (err sql_fault, v))
    → R (faulty fs m w)
faulty_elim R m [] w run fail = run w refl
faulty_elim R m (true ∷ fs) w run fail = fail (record w { faults = fs }) refl
faulty_elim R m (false ∷ fs) w run fail = run (record w { faults = fs }) refl

module _ {ℓ} {S A : Type 0} {P : S → Type ℓ} {Q : A → S → Type ℓ} where
  pub Triple-pure : (a : A) → ((t : S) → P t → Q a t) → Triple P (pure a) Q
  unfolding pure
  Triple-pure a h = record { at = λ w p. h w.tables p }

  pub Triple-raise : (e : Error) → Triple P (raise e) Q
  unfolding raise
  Triple-raise e = record { at = λ w p. tt }

  pub Triple-lift : (r : Result A) → ((t : S) → P t → After Q r t) → Triple P (lift r) Q
  unfolding lift
  Triple-lift r h = record { at = λ w p. h w.tables p }

  pub Triple-statement :
      (f : S → Result A × S) → ((t : S) → P t → After Q (f t).0 (f t).1) → Triple P (statement f) Q
  unfolding statement
  Triple-statement f h = record {
    at = λ w p.
        faulty_elim (λ x. After Q x.0 x.1.tables) _ w.faults w
          (λ v e. h v.tables (subst P (sym e) p)) (λ v e. tt);
  }

  pub Triple-weaken :
      {P' : S → Type ℓ} {Q' : A → S → Type ℓ} (m : Sql S A)
      → Triple P' m Q'
      → ((t : S) → P t → P' t)
      → ((a : A) (t : S) → Q' a t → Q a t)
      → Triple P m Q
  Triple-weaken {Q'} m h pre post = record {
    at = λ w p. weaken (m w).0 (m w).1.tables (h.at w (pre w.tables p));
  }
    where
      weaken : (r : Result A) (t : S) → After Q' r t → After Q r t
      weaken (ok a) t q = post a t q
      weaken (err e) t q = tt

  -- A fact that does not speak of the tables is taken out of the precondition.
  pub Triple-fact : (F : Type ℓ) (m : Sql S A) → (F → Triple P m Q) → Triple (λ t. P t × F) m Q
  Triple-fact F m h = record { at = λ w p. (h p.1).at w p.0 }

  pub Triple-if :
      (b : Bool) (m n : Sql S A)
      → (b ≡ true → Triple P m Q)
      → (b ≡ false → Triple P n Q)
      → Triple P (if b then m else n) Q
  Triple-if true m n hm hn = hm refl
  Triple-if false m n hm hn = hn refl

module _ {ℓ} {S A : Type 0} {P : S → Type ℓ} {Q : A → S → Type ℓ} where
  pub Triple-query : (f : S → A) → ((t : S) → P t → Q (f t) t) → Triple P (query f) Q
  unfolding query
  Triple-query f h = Triple-statement _ h

module _ {ℓ} {S A : Type 0} {P R : S → Type ℓ} where
  pub Triple-insert :
      (f : S → Result A × S) → ((t : S) → P t → R (f t).1) → Triple P (statement f) (λ _. R)
  Triple-insert f h = Triple-statement f (λ t p. After-all R (f t).0 (f t).1 (h t p))

module _ {ℓ} {S : Type 0} {P : S → Type ℓ} {Q : Unit {0} → S → Type ℓ} where
  pub Triple-exec : (f : S → S) → ((t : S) → P t → Q tt (f t)) → Triple P (exec f) Q
  unfolding exec
  Triple-exec f h = Triple-statement _ h

module _ {ℓ} {S A B : Type 0} {R : B → S → Type ℓ} where
  Triple-continue :
      (Q : A → S → Type ℓ) (f : A → Sql S B)
      → ((a : A) → Triple (Q a) (f a) R)
      → (r : Result A) (w : World S) → After Q r w.tables
      → After R (continue r f w).0 (continue r f w).1.tables
  Triple-continue Q f h (ok a) w q = (h a).at w q
  Triple-continue Q f h (err e) w q = tt

module _ {ℓ} {S A B : Type 0} {P : S → Type ℓ} {R : B → S → Type ℓ} where
  pub Triple-bind :
      (Q : A → S → Type ℓ) (m : Sql S A) (f : A → Sql S B)
      → Triple P m Q
      → ((a : A) → Triple (Q a) (f a) R)
      → Triple P (m >>= f) R
  unfolding ◌>>=◌
  Triple-bind Q m f hm hf = record {
    at = λ w p. Triple-continue Q f hf (m w).0 (m w).1 (hm.at w p);
  }

-- Where every intermediate state has the invariant, so does the end.
module _ {ℓ} {S : Type 0} (P : S → Type ℓ) where
  abbrev pub Invariant : {A : Type 0} → Sql S A → Type ℓ
  Invariant m = Triple P m (λ _. P)

module _ {ℓ} {S A : Type 0} (P : S → Type ℓ) where
  finish-keeps :
      (saved : S) (r : Result (Ending A)) (w : World S)
      → P saved
      → After (λ _. P) r w.tables
      → P (finish saved r w).1.tables
  unfolding finish statement
  finish-keeps saved (err e) w p q = p
  finish-keeps saved (ok (rollback a)) w p q = p
  finish-keeps saved (ok (commit a)) w p q =
      let closed : (r : Result A) (v : World S) → P v.tables → P (close saved r v).1.tables = elim [
        | ok a ↦ λ v h. h
        | err e ↦ λ v h. p
      ] in
      faulty_elim (λ x. P (close saved x.0 x.1).1.tables) _ w.faults w (λ v e. subst P (sym e) q)
        (λ v e. p)

module _ {ℓ} {S A : Type 0} {P : S → Type ℓ} where
  -- Inside a transaction only the committed end has to have the invariant.
  pub Keeps-transact : (body : Sql S (Ending A)) → Invariant P body → Keeps P (transact body)
  unfolding transact statement
  Keeps-transact body h = record {
    at = λ w p.
        faulty_elim (λ x. P (run_tx body x.0 x.1).1.tables) _ w.faults w
          (λ v e.
            let pv : P v.tables = subst P (sym e) p in
            finish-keeps P v.tables (body v).0 (body v).1 pv (h.at v pv))
          (λ v e. subst P (sym e) p);
  }

module _ {S A : Type 0} where
  finish_error :
      (saved : S) (r : Result (Ending A)) (w : World S) (e : Error)
      → (finish saved r w).0 ≡ err e
      → (finish saved r w).1.tables ≡ saved
  unfolding finish statement
  finish_error saved (err e') w e = λ h. refl
  finish_error saved (ok (rollback a)) w e = λ h. refl
  finish_error saved (ok (commit a)) w e =
      faulty_elim (λ x. (close saved x.0 x.1).0 ≡ err e → (close saved x.0 x.1).1.tables ≡ saved) _
        w.faults w (λ v _ h. cc) (λ v _ h. refl)

  -- A transaction that fails, whichever statement it is and the commit included, changes no table.
  pub transact_atomic :
      (body : Sql S (Ending A)) (w : World S) (e : Error)
      → (transact body w).0 ≡ err e
      → (transact body w).1.tables ≡ w.tables
  unfolding transact statement
  transact_atomic body w e =
      faulty_elim (λ x. (run_tx body x.0 x.1).0 ≡ err e → (run_tx body x.0 x.1).1.tables ≡ w.tables)
        _ w.faults w (λ v same h. finish_error v.tables (body v).0 (body v).1 e h ∙ same)
        (λ v same h. same)

pub ruleset triple_rules =
    (Triple-pure, Triple-raise, Triple-lift, Triple-query, Triple-exec, Triple-if)

-- Actions outside a transaction keep an invariant at each statement.
module _ {ℓ} {S A : Type 0} {P : S → Type ℓ} where
  pub Keeps-pure : (a : A) → Keeps P (pure a)
  unfolding pure
  Keeps-pure a = record { at = λ w p. p }

  pub Keeps-statement : (f : S → Result A × S) → ((t : S) → P t → P (f t).1) → Keeps P (statement f)
  unfolding statement
  Keeps-statement f h = record {
    at = λ w p.
        faulty_elim (λ x. P x.1.tables) _ w.faults w (λ v e. h v.tables (subst P (sym e) p))
          (λ v e. subst P (sym e) p);
  }

  pub Keeps-if :
      (b : Bool) (m n : Sql S A)
      → (b ≡ true → Keeps P m)
      → (b ≡ false → Keeps P n)
      → Keeps P (if b then m else n)
  Keeps-if true m n hm hn = hm refl
  Keeps-if false m n hm hn = hn refl

module _ {ℓ} {S : Type 0} {P : S → Type ℓ} where
  pub Keeps-exec : (f : S → S) → ((t : S) → P t → P (f t)) → Keeps P (exec f)
  unfolding exec
  Keeps-exec f h = Keeps-statement _ h

module _ {ℓ} {S A B : Type 0} {P : S → Type ℓ} where
  Keeps-continue :
      (f : A → Sql S B)
      → ((a : A) → Keeps P (f a))
      → (r : Result A) (w : World S) → P w.tables
      → P (continue r f w).1.tables
  Keeps-continue f h (ok a) w p = (h a).at w p
  Keeps-continue f h (err e) w p = p

  pub Keeps-bind :
      (m : Sql S A) (f : A → Sql S B) → Keeps P m → ((a : A) → Keeps P (f a)) → Keeps P (m >>= f)
  unfolding ◌>>=◌
  Keeps-bind m f hm hf = record { at = λ w p. Keeps-continue f hf (m w).0 (m w).1 (hm.at w p) }

  -- What follows a query may use what it read.
  pub Keeps-read :
      (f : S → A) (k : A → Sql S B)
      → ((w : World S) → P w.tables → P (k (f w.tables) w).1.tables)
      → Keeps P (query f >>= k)
  unfolding ◌>>=◌ query statement
  Keeps-read f k h = record {
    at = λ w p.
        faulty_elim (λ x. P (continue x.0 k x.1).1.tables) _ w.faults w
          (λ v e. h v (subst P (sym e) p)) (λ v e. subst P (sym e) p);
  }
