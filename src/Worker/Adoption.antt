-- ===== src/Worker/Adoption.antt =====
-- worker.go: which configuration a worker has after `configure`.
use cross_session_codex.Common.{
  ◌≡◌, refl, ◌⊎◌, inl, inr, String, Bool, true, false, not, ◌||◌, List, [], ◌∷◌, Option, none, some,
  str_eq, leb, if◌then◌else◌,
}
use cross_session_codex.Json.{Fields}
use cross_session_codex.Sql.{
  Error, Result, ok, err, World, Sql, pure, raise, lift, continue, ◌>>=◌, ◌>>◌, name_taken,
  not_attached, not_saved, not_published,
}
use cross_session_codex.Sql.Triple.{Keeps, Keeps-pure, Keeps-bind, Keeps-if}
use cross_session_codex.Store.{Db, Delivery, Row, Message, State, unread, held}
use cross_session_codex.Store.Rows.{read_rows, count}
use cross_session_codex.Store.Transition.{transition_tx}
use cross_session_codex.Store.Notice.{reset_delivery}
use cross_session_codex.Config.{Config, Checked, valid, invalid, Owner}
use cross_session_codex.Worker.{Node, on_store, look, edit, signal, enqueue_status}
use cross_session_codex.Worker.Configure.{
  Surroundings, options, checked, owned_or_error, must, set_config, settle_held, settle_all,
  change_delivery, is_changed, forget_client, prepare, adopt, configure,
}
use cross_session_codex.Worker.Soundness.{Keeps-look, Keeps-edit}

abbrev Has : Config → Node → Type 0
Has c n = n.config ≡ c

-- What comes after the adoption leaves the configuration alone.
module _ (c : Config) where
  on_store-Has : {A : Type 0} (m : Sql Db A) → Keeps (Has c) (on_store m)
  unfolding on_store
  on_store-Has m = record { at = λ w p. p }

  enqueue_status-Has :
      (m : Option Message) (status : Delivery) (reason : String) (ids : List String)
      → Keeps (Has c) (enqueue_status m status reason ids)
  unfolding enqueue_status
  enqueue_status-Has m status reason ids = Keeps-edit _ (λ n p. p)

  settle_held-Has : (o : Option State) (m : Message) → Keeps (Has c) (settle_held o m)
  unfolding settle_held
  settle_held-Has (some unread) m = Keeps-bind _ _ (on_store-Has (count unread "")) (λ n.
      Keeps-if (leb 50 n) _ _ (λ _. Keeps-pure false)
        (λ _.
          Keeps-bind _ _ (on_store-Has (transition_tx (m.id ∷ []) held unread))
            (λ _. Keeps-bind _ _ (enqueue_status-Has _ _ _ _) (λ _. Keeps-pure true))))
  settle_held-Has (some _) m = Keeps-pure true
  settle_held-Has none m =
      Keeps-bind _ _ (on_store-Has (transition_tx (m.id ∷ []) held State.declined))
        (λ _. Keeps-bind _ _ (enqueue_status-Has _ _ _ _) (λ _. Keeps-pure true))

  settle_all-Has : (xs : List Row) → Keeps (Has c) (settle_all xs)
  unfolding settle_all
  settle_all-Has [] = Keeps-pure tt
  settle_all-Has (x ∷ xs) = Keeps-bind _ _ (Keeps-look _) (λ verdict.
      Keeps-bind _ _ (settle_held-Has verdict x.content) (λ more. go (settle_all-Has xs) more))
    where
      go :
          Keeps (Has c) (settle_all xs)
          → (more : Bool) → Keeps (Has c) (elim more [ true ↦ settle_all xs | false ↦ pure tt ])
      go rest true = rest
      go rest false = Keeps-pure tt

  signal-Has : Keeps (Has c) signal
  signal-Has = Keeps-edit _ (λ n p. p)

-- An action that leaves the configuration, and returns only where R holds.
record Gives (old : Config) (m : Sql Node (Unit {0})) (R : Type 0) : Type 0 where
  at : (w : World Node) → Has old w.tables → Has old (m w).1.tables × ((m w).0 ≡ ok tt → R)

module _ (old : Config) where
  Gives-must : (b : Bool) (e : Error) → Gives old (must b e) (b ≡ true)
  unfolding pure raise
  Gives-must true e = record { at = λ w p. (p, λ h. refl) }
  Gives-must false e = record { at = λ w p. (p, λ h. absurd cc) }

  Gives-owner : (o : Owner) → Gives old (lift (owned_or_error o)) (o ≡ Owner.owned)
  unfolding lift
  Gives-owner Owner.owned = record { at = λ w p. (p, λ h. refl) }
  Gives-owner Owner.no_owner = record { at = λ w p. (p, λ h. absurd cc) }
  Gives-owner Owner.owner_gone = record { at = λ w p. (p, λ h. absurd cc) }
  Gives-owner Owner.host_unverified = record { at = λ w p. (p, λ h. absurd cc) }

  Gives-then :
      {R S : Type 0} (m n : Sql Node (Unit {0}))
      → Gives old m R
      → Gives old n S
      → Gives old (m >> n) (R × S)
  unfolding ◌>>=◌
  Gives-then {R} {S} m n hm hn = record {
    at = λ w p. let (q, h) = hm.at w p in follow (m w).0 (m w).1 q h;
  }
    where
      follow :
          (r : Result (Unit {0})) (v : World Node)
          → Has old v.tables
          → (r ≡ ok tt → R)
          → Has old (continue r (λ _. n) v).1.tables × ((continue r (λ _. n) v).0 ≡ ok tt → R × S)
      follow (ok tt) v q h = let (p, k) = hn.at v q in (p, λ e. (h refl, k e))
      follow (err e) v q h = (q, λ k. absurd cc)

  Gives-if :
      {R : Type 0} (b : Bool) (m : Sql Node (Unit {0}))
      → Gives old m R
      → Gives old (if b then m else pure tt) (b ≡ true → R)
  unfolding pure
  Gives-if true m h = record { at = λ w p. let (q, k) = h.at w p in (q, λ e _. k e) }
  Gives-if false m h = record { at = λ w p. (p, λ e b. absurd cc) }

  Gives-on_store : (m : Sql Db (Unit {0})) → Gives old (on_store m) (Unit {0})
  unfolding on_store
  Gives-on_store m = record { at = λ w p. (p, λ e. tt) }

-- A new configuration that a worker may have.
pub record IsAdopted (around : Surroundings) (apply : Fields → Config → Checked Config)
    (args : Fields) (old c : Config) : Type 0 where
  pub applied_lem : apply (options args) old ≡ valid c
  pub owner_lem : around.owner c ≡ Owner.owned
  pub name_lem : (str_eq c.name old.name || around.is_free c.name) ≡ true
  pub client_lem :
      is_changed old c ≡ true → (not (str_eq c.delivery "app-server") || around.attaches c) ≡ true
  pub saved_lem : around.saves c ≡ true
  pub published_lem : around.publishes c ≡ true

module _ (around : Surroundings) (apply : Fields → Config → Checked Config) (args : Fields)
    (old : Config) where
  -- What was asked of a configuration before it was saved.
  abbrev Asked : Config → Type 0
  Asked c =
      (around.owner c ≡ Owner.owned)
      × (((str_eq c.name old.name || around.is_free c.name) ≡ true)
          × ((is_changed old c ≡ true
                → ((not (str_eq c.delivery "app-server") || around.attaches c) ≡ true) × Unit {0})
              × (around.saves c ≡ true)))

  prepare-Gives : (c : Config) → Gives old (prepare around old c) (Asked c)
  unfolding prepare change_delivery
  prepare-Gives c = Gives-then old _ _ (Gives-owner old (around.owner c)) (
      Gives-then old _ _ (Gives-must old _ name_taken) (
        Gives-then old _ _
          (Gives-if old (is_changed old c) _ (
            Gives-then old _ _ (Gives-must old _ not_attached) (Gives-on_store old reset_delivery)))
          (Gives-must old _ not_saved)))

  -- The old configuration, or one that was adopted.
  abbrev Ends : Node → Type 0
  Ends n = (n.config ≡ old) ⊎ ((c : Config) × (n.config ≡ c) × IsAdopted around apply args old c)

  -- The rest of `configure`.
  abbrev rest : Config → Sql Node (Unit {0})
  rest c = do
    if is_changed old c then forget_client else pure tt
    rows ← on_store (read_rows held "" 100)
    settle_all rows
    signal

  rest-Has : (c : Config) → Keeps (Has c) (rest c)
  rest-Has c =
      Keeps-bind _ _
        (Keeps-if (is_changed old c) _ _ (λ _. Keeps-edit _ (λ n p. p)) (λ _. Keeps-pure tt))
        (λ _.
          Keeps-bind _ _ (on_store-Has c (read_rows held "" 100))
            (λ rows. Keeps-bind _ _ (settle_all-Has c rows) (λ _. signal-Has c)))

  adopted :
      (c : Config)
      → apply (options args) old ≡ valid c
      → around.publishes c ≡ true
      → Asked c
      → IsAdopted around apply args old c
  adopted c applied published (owner, (name, (client, saved))) = record {
    applied_lem = applied;
    owner_lem = owner;
    name_lem = name;
    client_lem = λ e. (client e).0;
    saved_lem = saved;
    published_lem = published;
  }

  -- The adoption, where the registration can be written and where it cannot.
  adopt-Ends :
      (c : Config) (b : Bool)
      → (b ≡ true → IsAdopted around apply args old c)
      → (w : World Node)
      → Ends
          ((set_config c
              >> (if b then pure tt else (set_config old >> raise not_published))
              >> rest c)
            w).1.tables
  unfolding edit raise pure ◌>>=◌
  adopt-Ends c true good w =
      inr
        (c, (rest-Has c).at (record w { tables = record w.tables { config = c } }) refl, good refl)
  adopt-Ends c false good w = inl refl

  after_prepare :
      (c : Config) (r : Result (Unit {0})) (v : World Node)
      → apply (options args) old ≡ valid c
      → Has old v.tables
      → (r ≡ ok tt → Asked c)
      → Ends (continue r (λ _. adopt around old c >> rest c) v).1.tables
  unfolding adopt
  after_prepare c (ok tt) v e p h =
      adopt-Ends c (around.publishes c) (λ published. adopted c e published (h refl)) v
  after_prepare c (err x) v e p h = inl p

  applied-Ends :
      (o : Checked Config) (w : World Node)
      → apply (options args) old ≡ o
      → Has old w.tables
      → Ends
          ((lift (checked o) >>= λ c. prepare around old c >> (adopt around old c >> rest c))
            w).1.tables
  unfolding lift ◌>>=◌
  applied-Ends (valid c) w e p =
      let (q, asked) = (prepare-Gives c).at w p in
      after_prepare c (prepare around old c w).0 (prepare around old c w).1 e q asked
  applied-Ends (invalid x) w e p = inl p

-- After `configure`, whatever the world answers and whichever statement fails, a worker has its old
-- configuration or one that applyConfig makes of it and that was adopted: its owner was found, its name is
-- the old one or free, the app-server attaches the thread where delivery changes to it, and the file and
-- the registration could be written.
pub configure-IsAdopted :
    (around : Surroundings) (apply : Fields → Config → Checked Config) (args : Fields)
    (w : World Node)
    → ((configure around apply args w).1.tables.config ≡ w.tables.config)
      ⊎ ((c : Config) × ((configure around apply args w).1.tables.config ≡ c)
          × IsAdopted around apply args w.tables.config c)
unfolding configure look ◌>>=◌
configure-IsAdopted around apply args w =
    applied-Ends around apply args w.tables.config (apply (options args) w.tables.config) w refl
      refl
