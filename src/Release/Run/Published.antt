-- ===== src/Release/Run/Published.antt =====
-- What has happened when something was published.
use cross_session_codex.Common.{
  ℕ, ◌≡◌, ◌≢◌, refl, subst, Bool, true, false, ◌&&◌, List, [], ◌∷◌, Option, none, some, arith,
  Bytes, Bool-cases, inl, inr, All,
}
use cross_session_codex.Bytes.{same_bytes}
use cross_session_codex.Bytes.Cut.{same_bytes_eq}
use cross_session_codex.Release.Outside.{
  Call, cancelled, fails, World, Outside, Act, ask, pure, stop, require, need, settled, continue,
  ◌>>=◌, ◌>>◌,
}
use cross_session_codex.Release.Outside.Quiet.{
  Makes, Makes-pure, Makes-bind, Makes-need, Makes-require,
}
use cross_session_codex.Release.Source.{SourceState, Options, Target, inspect_source}
use cross_session_codex.Release.Run.{Setup, set_up, build_all, finish, publish, run}
use cross_session_codex.Release.Run.Guarded.{
  is_quiet, IsQuiet, inspect-IsQuiet, set_up-IsQuiet, build_all-IsQuiet,
}

-- Whether nothing was published.
abbrev pub quiet_log : List Call → Bool
quiet_log [] = true
quiet_log (c ∷ cs) = is_quiet c && quiet_log cs

IsQuiet-All : (cs : List Call) → quiet_log cs ≡ true → All IsQuiet cs
IsQuiet-All [] h = tt
IsQuiet-All (c ∷ cs) h = (ground arith, IsQuiet-All cs (ground arith))

All-IsQuiet : (cs : List Call) → All IsQuiet cs → quiet_log cs ≡ true
All-IsQuiet [] h = refl
All-IsQuiet (c ∷ cs) (h, k) = ground (arith, h, All-IsQuiet cs k)

module _ {A B : Type 0} (m : Act A) (f : A → Act B) (outside : Outside) where
  went_on :
      (r : Option A) (w : World)
      → All IsQuiet w.log
      → quiet_log (continue r f outside w).1.log ≡ false
      → (a : A) × (r ≡ some a) × (quiet_log (f a outside w).1.log ≡ false)
  went_on none w q h = let k = All-IsQuiet w.log q in absurd cc
  went_on (some a) w q h = (a, refl, h)

  -- A quiet action before a publication has returned.
  after_quiet :
      (w : World)
      → Makes IsQuiet m
      → All IsQuiet w.log
      → quiet_log ((m >>= f) outside w).1.log ≡ false
      → (a : A) × ((m outside w).0 ≡ some a)
        × (quiet_log (f a outside (m outside w).1).1.log ≡ false)
  unfolding ◌>>=◌
  after_quiet w q k h = went_on (m outside w).0 (m outside w).1 (q.at outside w k) h

  -- Where a quiet action follows, the publication was before it.
  before_quiet :
      (w : World)
      → ((a : A) → Makes IsQuiet (f a))
      → quiet_log ((m >>= f) outside w).1.log ≡ false
      → quiet_log (m outside w).1.log ≡ false
  unfolding ◌>>=◌
  before_quiet w q h = elim (Bool-cases (quiet_log (m outside w).1.log)) [
    | inr e ↦ e
    | inl e ↦
        let k = All-IsQuiet _ (stays (m outside w).0 (m outside w).1 (IsQuiet-All _ e)) in absurd cc
  ]
    where
      stays :
          (r : Option A) (v : World)
          → All IsQuiet v.log
          → All IsQuiet (continue r f outside v).1.log
      stays none v k = k
      stays (some a) v k = (q a).at outside v k

  -- Both parts of an action that returns have returned.
  pub both_returned :
      (w : World) (b : B)
      → ((m >>= f) outside w).0 ≡ some b
      → (a : A) × ((m outside w).0 ≡ some a) × ((f a outside (m outside w).1).0 ≡ some b)
  unfolding ◌>>=◌
  both_returned w b h = returned (m outside w).0 (m outside w).1 h
    where
      returned :
          (r : Option A) (v : World)
          → (continue r f outside v).0 ≡ some b
          → (a : A) × (r ≡ some a) × ((f a outside v).0 ≡ some b)
      returned none v h = absurd cc
      returned (some a) v h = (a, refl, h)

pub required :
    (b : Bool) (outside : Outside) (w : World) (u : Unit {0})
    → (require b outside w).0 ≡ some u
    → b ≡ true
unfolding stop
required true outside w u h = refl
required false outside w u h = absurd cc

require_world : (b : Bool) (outside : Outside) (w : World) → (require b outside w).1 ≡ w
unfolding pure stop
require_world true outside w = refl
require_world false outside w = refl

needed :
    (c : Call) (outside : Outside) (w : World) (u : Unit {0})
    → (need c outside w).0 ≡ some u
    → outside w.clock c ≢ fails
unfolding ask ◌>>=◌ stop
needed c outside w u h e =
    let k : (settled fails outside (ask c outside w).1).0 ≡ some u = rw e at h in absurd cc

abbrev pub start : World
start = record { clock = 0; log = [] }

module _ (digest : Bytes → Bytes) (print_date : ℕ → Bytes) (environ : List Bytes) (native : Target)
    (o : Options) (outside : Outside) where
  -- The world when all is built.
  abbrev pub when_built : Setup → World
  when_built s =
      (build_all environ print_date native o s outside (set_up digest environ o outside start).1).1

  abbrev pub inspected : Setup → Option SourceState × World
  inspected s = inspect_source digest s.root s.stage outside (when_built s)

  -- The source was what it had been before the build, and the run was not cancelled.
  pub record IsUnchanged : Type 0 where
    pub setup : Setup
    pub after : SourceState
    pub then_lem : (set_up digest environ o outside start).0 ≡ some setup
    pub now_lem : (inspected setup).0 ≡ some after
    pub same_lem : setup.before.fingerprint ≡ after.fingerprint
    pub alive_lem : outside (inspected setup).1.clock cancelled ≢ fails

  finish-unchanged :
      (s : Setup) (made : List Target)
      → (set_up digest environ o outside start).0 ≡ some s
      → All IsQuiet (when_built s).log
      → quiet_log (finish digest native o s made outside (when_built s)).1.log ≡ false
      → IsUnchanged
  unfolding finish
  finish-unchanged s made e k h =
      let check =
        λ (after : SourceState). require (same_bytes s.before.fingerprint after.fingerprint) in
      let (after, e2, h2) =
        after_quiet (inspect_source digest s.root s.stage) _ outside (when_built s)
          (inspect-IsQuiet digest s.root s.stage) k h in
      let w2 : World = (inspected s).1 in
      let h3 =
        before_quiet ((check after >> need cancelled) >> publish native o s) _ outside w2
          (λ _. Makes-pure _) h2 in
      let q = (inspect-IsQuiet digest s.root s.stage).at outside (when_built s) k in
      let (u, e4, h4) =
        after_quiet (check after >> need cancelled) _ outside w2
          (Makes-bind (check after) _ (Makes-require _) (λ _. Makes-need cancelled refl)) q h3 in
      let (v, e5, e6) = both_returned (check after) (λ _. need cancelled) outside w2 u e4 in
      record {
        setup = s;
        after = after;
        then_lem = e;
        now_lem = e2;
        same_lem = same_bytes_eq _ _ (required _ outside w2 v e5);
        alive_lem =
            subst (λ (x : World). outside x.clock cancelled ≢ fails) (require_world _ outside w2)
              (needed cancelled outside _ u e6);
      }

  run-unchanged :
      quiet_log (run digest print_date environ native o outside start).1.log ≡ false → IsUnchanged
  unfolding run ask
  run-unchanged h =
      let set : Act Setup = set_up digest environ o in
      let (s, e, h1) = after_quiet set _ outside start (set_up-IsQuiet digest environ o) tt h in
      let k = (set_up-IsQuiet digest environ o).at outside start tt in
      let (made, e2, h2) =
        after_quiet (build_all environ print_date native o s) _ outside (set outside start).1
          (build_all-IsQuiet environ print_date native o s) k h1 in
      finish-unchanged s made e
        ((build_all-IsQuiet environ print_date native o s).at outside (set outside start).1 k) h2

-- If a run publishes a directory or replaces a file, whatever the system answers, then the source had
-- the same fingerprint in the inspection after the build as in the one before it, and the context was
-- not cancelled when it was asked after that.
pub run-IsUnchanged :
    (digest : Bytes → Bytes) (print_date : ℕ → Bytes) (environ : List Bytes) (native : Target)
    (o : Options) (outside : Outside)
    → quiet_log (run digest print_date environ native o outside start).1.log ≡ false
    → IsUnchanged digest print_date environ native o outside
run-IsUnchanged = run-unchanged
