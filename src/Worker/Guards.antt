-- ===== src/Worker/Guards.antt =====
-- worker.go: when a pass of `maintenance` hands the app-server no notice.
use cross_session_codex.Common.{
  ℕ, ◌+◌, ◌*◌, ◌≡◌, ◌≢◌, refl, sym, subst, ap, ◌∙◌, ◌⊎◌, inl, inr, String, Bool, true, false, List,
  [], ◌∷◌, Option, none, some, str_eq, eq_iff, ltb, if◌then◌else◌,
}
use cross_session_codex.Numbers.{second}
use cross_session_codex.Sql.{World, Sql, Error, raise, exec, ◌>>=◌}
use cross_session_codex.Sql.Triple.{Keeps, Keeps-pure, Keeps-bind, Keeps-if}
use cross_session_codex.Sql.Keeping.{Keeps-raise}
use cross_session_codex.Store.{Db, Row}
use cross_session_codex.Store.Expiry.{expire}
use cross_session_codex.Config.{Config, Owner}
use cross_session_codex.Worker.{Node, on_store, look, enqueue_status}
use cross_session_codex.Worker.Delivering.{
  AppServer, with_error, set_error, set_activity, publish, unreachable, observed_thread, dialled,
  deliver, tell_expired, expiring, stop, by_owner, seconds_of, maintenance,
}
use cross_session_codex.Worker.Soundness.{Keeps-look, Keeps-edit}

-- The same notices were sent, and the configuration is the same.
abbrev Held : List String → Config → Node → Type 0
Held log c n = (n.notices ≡ log) × (n.config ≡ c)

module _ (log : List String) (c : Config) where
  abbrev Holds : {A : Type 0} → Sql Node A → Type 0
  Holds m = Keeps (Held log c) m

  on_store-Holds : {A : Type 0} (m : Sql Db A) → Holds (on_store m)
  unfolding on_store
  on_store-Holds m = record { at = λ w p. p }

  set_error-Holds : (e : Option String) → Holds (set_error e)
  unfolding set_error
  set_error-Holds e = on_store-Holds (exec (with_error e))

  set_activity-Holds : (now : ℕ) (state detail : String) → Holds (set_activity now state detail)
  unfolding set_activity
  set_activity-Holds now state detail = Keeps-edit _ (λ n p. p)

  -- Nothing follows an error.
  raise-Holds : {A B : Type 0} (e : Error) (f : A → Sql Node B) → Holds (raise e >>= f)
  unfolding raise ◌>>=◌
  raise-Holds e f = record { at = λ w p. p }

  -- What is looked at decides what follows.
  by_look :
      {A B : Type 0} (f : Node → A) (k : A → Sql Node B)
      → ((w : World Node) → Held log c w.tables → Held log c (k (f w.tables) w).1.tables)
      → Holds (look f >>= k)
  unfolding look ◌>>=◌
  by_look f k h = record { at = h }

  module _ (app : AppServer) (now : ℕ) where
    tell_expired-Holds : (xs : List Row) → Holds (tell_expired app now xs)
    unfolding tell_expired enqueue_status
    tell_expired-Holds [] = Keeps-pure tt
    tell_expired-Holds (x ∷ xs) =
        Keeps-bind _ _ (Keeps-edit _ (λ n p. p)) (λ _. tell_expired-Holds xs)

    publish-Holds : (publishes : Bool) → Holds (publish app now publishes)
    publish-Holds publishes = Keeps-if publishes _ _ (λ _. Keeps-pure tt) (λ _. Keeps-raise _)

    unreachable-Holds :
        (publishes : Bool) (detail : String) → Holds (unreachable app now publishes detail)
    unreachable-Holds publishes detail = Keeps-bind _ _ (Keeps-edit _ (λ n p. p)) (λ _.
        Keeps-bind _ _ (set_activity-Holds now _ _)
          (λ _. Keeps-bind _ _ (set_error-Holds _) (λ _. publish-Holds publishes)))

    -- The registration cannot be written, or the thread cannot be read.
    abbrev Silent : Bool → Type 0
    Silent publishes = (publishes ≡ false) ⊎ ((b : Bool) → app.thread b ≡ none)

    observed_thread-Holds :
        (publishes : Bool) (fresh : String) (o : Option Bool)
        → (publishes ≡ false) ⊎ (o ≡ none)
        → Holds (observed_thread app now publishes fresh o)
    observed_thread-Holds publishes fresh none h = unreachable-Holds publishes _
    observed_thread-Holds true fresh (some active) (inl e) = absurd cc
    observed_thread-Holds false fresh (some active) (inl e) =
        Keeps-bind _ _ (Keeps-edit _ (λ n p. p))
          (λ _. Keeps-bind _ _ (set_activity-Holds now _ _) (λ _. raise-Holds _ _))
    observed_thread-Holds publishes fresh (some active) (inr e) = absurd cc

    Silent-at :
        (publishes b : Bool) → Silent publishes → (publishes ≡ false) ⊎ (app.thread b ≡ none)
    Silent-at publishes b (inl e) = inl e
    Silent-at publishes b (inr e) = inr (e b)

    dialled-Holds :
        (publishes : Bool) (fresh : String) (missing : Bool) (e : Option String)
        → Silent publishes
        → Holds (dialled app now publishes fresh missing e)
    dialled-Holds publishes fresh true none h =
        Keeps-bind _ _ (Keeps-edit _ (λ n p. p))
          (λ _. observed_thread-Holds publishes fresh _ (Silent-at publishes false h))
    dialled-Holds publishes fresh true (some e) h =
        Keeps-bind _ _ (Keeps-edit _ (λ n p. p)) (λ _. unreachable-Holds publishes e)
    dialled-Holds publishes fresh false e h =
        Keeps-bind _ _ (Keeps-look _)
          (λ attached. observed_thread-Holds publishes fresh _ (Silent-at publishes attached h))

    -- What keeps the delivery from a notice: it is manual, or silent.
    abbrev Barred : Bool → Type 0
    Barred publishes = (c.delivery ≡ "manual") ⊎ Silent publishes

    manual-test : (d : String) → d ≡ "manual" → str_eq d "manual" ≡ true
    manual-test d e = (eq_iff d "manual").1 e

    deliver-Holds :
        (publishes : Bool) (fresh : String)
        → Barred publishes
        → Holds (deliver app now publishes fresh)
    unfolding deliver
    deliver-Holds publishes fresh (inr silent) = Keeps-bind _ _ (Keeps-look _) (λ manual.
        Keeps-if manual _ _
          (λ _. Keeps-bind _ _ (set_activity-Holds now _ _) (λ _. publish-Holds publishes))
          (λ _.
            Keeps-bind _ _ (Keeps-look _)
              (λ missing. dialled-Holds publishes fresh missing app.dial silent)))
    deliver-Holds publishes fresh (inl manual) =
        by_look (λ n. str_eq n.config.delivery "manual") _
          (λ w p.
            let now_manual : str_eq w.tables.config.delivery "manual" ≡ true =
              manual-test w.tables.config.delivery (ap (λ (x : Config). x.delivery) p.1 ∙ manual) in
            (Keeps-if (str_eq w.tables.config.delivery "manual") _ _
                (λ _. Keeps-bind _ _ (set_activity-Holds now _ _) (λ _. publish-Holds publishes))
                (λ other. absurd cc)).at
              w p)

    expiring-Holds :
        (publishes : Bool) (fresh : String)
        → Barred publishes
        → Holds (expiring app now publishes fresh)
    expiring-Holds publishes fresh h =
        Keeps-bind _ _ (on_store-Holds (expire now))
          (λ old. Keeps-bind _ _ (tell_expired-Holds old) (λ _. deliver-Holds publishes fresh h))

    -- What keeps a pass from a notice: the owner is not the one of the configuration, or a bar.
    abbrev Kept : Bool → Owner → Type 0
    Kept publishes o = (o ≢ Owner.owned) ⊎ Barred publishes

    by_owner-Holds :
        (publishes : Bool) (fresh detail : String) (o : Owner)
        → Kept publishes o
        → Holds (by_owner app now publishes fresh detail o)
    unfolding by_owner
    by_owner-Holds publishes fresh detail Owner.host_unverified h =
        Keeps-bind _ _ (Keeps-edit _ (λ n p. p)) (λ _.
          Keeps-bind _ _ (set_activity-Holds now _ _) (λ _.
            Keeps-bind _ _ (set_error-Holds _)
              (λ _. Keeps-bind _ _ (publish-Holds publishes) (λ _. Keeps-raise _))))
    by_owner-Holds publishes fresh detail Owner.owned (inl other) = absurd (other refl)
    by_owner-Holds publishes fresh detail Owner.owned (inr bar) =
        Keeps-bind _ _ (Keeps-look _) (λ unverified.
          Keeps-if unverified _ _
            (λ _. Keeps-bind _ _ (set_error-Holds none) (λ _.
              Keeps-bind _ _ (Keeps-edit _ (λ n p. p)) (λ _. expiring-Holds publishes fresh bar)))
            (λ _. expiring-Holds publishes fresh bar))
    by_owner-Holds publishes fresh detail Owner.owner_gone h = Keeps-edit _ (λ n p. p)
    by_owner-Holds publishes fresh detail Owner.no_owner h = Keeps-edit _ (λ n p. p)

-- One reason for which a pass of the maintenance must not send a notice: the lease is over, the check of
-- the owner did not find it, delivery is manual, the registration cannot be written, or the app-server
-- does not give the thread.
abbrev pub IsBarred : AppServer → ℕ → Bool → (Config → Owner) → Node → Type 0
IsBarred app now publishes owner n =
    (ltb (n.last_touch + seconds_of app now publishes n.config.lease * second) now ≡ true)
    ⊎ ((owner n.config ≢ Owner.owned)
        ⊎ ((n.config.delivery ≡ "manual")
            ⊎ ((publishes ≡ false) ⊎ ((b : Bool) → app.thread b ≡ none))))

-- A pass of the maintenance hands the app-server no notice, whichever statement fails, where the lease is
-- over, the check of the owner did not find it, delivery is manual, the registration cannot be written,
-- or the app-server does not give the thread.
pub maintenance-IsBarred :
    (app : AppServer) (now : ℕ) (publishes : Bool) (fresh detail : String) (owner : Config → Owner)
    (w : World Node)
    → IsBarred app now publishes owner w.tables
    → (maintenance app now publishes fresh detail owner w).1.tables.notices ≡ w.tables.notices
unfolding maintenance look ◌>>=◌
maintenance-IsBarred app now publishes fresh detail owner w h =
    (passed w.tables.notices w.tables.config
      (ltb (w.tables.last_touch + seconds_of app now publishes w.tables.config.lease * second) now)
      h w (refl, refl)).0
  where
    passed :
        (log : List String) (c : Config) (over : Bool)
        → (over ≡ true) ⊎ Kept log c app now publishes (owner c)
        → (v : World Node) → Held log c v.tables
        → Held log c
            ((if over
                then stop app now publishes
                else (look (λ n. owner n.config) >>= by_owner app now publishes fresh detail))
              v).1.tables
    passed log c true h v p = p
    passed log c false (inl e) v p = absurd cc
    passed log c false (inr kept) v p =
        (by_look log c (λ n. owner n.config) (by_owner app now publishes fresh detail)
            (λ u q.
              (by_owner-Holds log c app now publishes fresh detail (owner u.tables.config) (
                  subst (λ (x : Config). Kept log c app now publishes (owner x)) (sym q.1) kept)).at
                u q)).at
          v p
