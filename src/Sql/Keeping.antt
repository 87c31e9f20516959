-- ===== src/Sql/Keeping.antt =====
-- store.go: steps that write no table keep whatever holds of the tables.
use cross_session_codex.Common.{◌≡◌, Bool, true, false, if◌then◌else◌}
use cross_session_codex.Sql.{
  Error, sql_fault, Result, ok, err, World, Sql, raise, lift, query, statement, continue, ◌>>=◌,
}
use cross_session_codex.Sql.Triple.{Keeps, Keeps-statement, faulty_elim}

module _ {S A : Type 0} {P : S → Type 0} where
  pub Keeps-query : (f : S → A) → Keeps P (query f)
  unfolding query
  Keeps-query f = Keeps-statement _ (λ t p. p)

  pub Keeps-raise : (e : Error) → Keeps P (raise {S = S} {A = A} e)
  unfolding raise
  Keeps-raise e = record { at = λ w p. p }

  pub Keeps-lift : (r : Result A) → Keeps P (lift {S = S} {A = A} r)
  unfolding lift
  Keeps-lift r = record { at = λ w p. p }

-- What a query returns: what it reads of the tables, or a fault.
pub query_cases :
    {S A : Type 0} (R : Result A × World S → Type 0) (f : S → A) (w : World S)
    → ((v : World S) → v.tables ≡ w.tables → R (ok (f v.tables), v))
    → ((v : World S) → v.tables ≡ w.tables → R (err sql_fault, v))
    → R (query f w)
unfolding query statement
query_cases R f w run fail = faulty_elim R _ w.faults w run fail

-- An action that takes what holds at its start to what holds at its end, also where it fails.
pub record Leads {S A : Type 0} (P : S → Type 0) (m : Sql S A) (Q : S → Type 0) : Type 0 where
  pub at : (w : World S) → P w.tables → Q (m w).1.tables

module _ {S A B : Type 0} {P Q : S → Type 0} where
  continue-Leads :
      (f : A → Sql S B)
      → ((t : S) → P t → Q t)
      → ((a : A) → Leads P (f a) Q)
      → (r : Result A) (w : World S) → P w.tables
      → Q (continue r f w).1.tables
  continue-Leads f weaker hf (ok a) w p = (hf a).at w p
  continue-Leads f weaker hf (err e) w p = weaker w.tables p

  pub Leads-bind :
      (m : Sql S A) (f : A → Sql S B)
      → Keeps P m
      → ((t : S) → P t → Q t)
      → ((a : A) → Leads P (f a) Q)
      → Leads P (m >>= f) Q
  unfolding ◌>>=◌
  Leads-bind m f hm weaker hf = record {
    at = λ w p. continue-Leads f weaker hf (m w).0 (m w).1 (hm.at w p);
  }

module _ {S A : Type 0} {P Q : S → Type 0} where
  pub Leads-if :
      (b : Bool) (m n : Sql S A) → Leads P m Q → Leads P n Q → Leads P (if b then m else n) Q
  Leads-if true m n hm hn = hm
  Leads-if false m n hm hn = hn
