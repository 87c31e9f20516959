-- ===== src/Worker/Configure.antt =====
-- worker.go: `configure`, which checks, saves and publishes a new configuration and then decides the
-- held messages by it.
use cross_session_codex.Common.{
  String, Bool, true, false, not, ◌||◌, List, [], ◌∷◌, Option, none, some, leb, str_eq,
  if◌then◌else◌,
}
use cross_session_codex.Json.{Fields, empty, field}
use cross_session_codex.Sql.{
  Result, ok, err, Error, bad_config, no_owner, owner_gone, host_unverified, name_taken,
  not_attached, not_saved, not_published, Sql, ◌>>=◌, ◌>>◌, pure, raise, lift,
}
use cross_session_codex.Store.{Row, Message, State, unread, held, released, refused}
use cross_session_codex.Store.Rows.{read_rows, count}
use cross_session_codex.Store.Transition.{transition_tx}
use cross_session_codex.Store.Notice.{reset_delivery}
use cross_session_codex.Config.{Config, Checked, valid, invalid, Owner}
use cross_session_codex.Worker.{Node, on_store, look, edit, admission, signal, enqueue_status}

-- What the world outside answers while a configuration is taken over: the check of the owner, whether
-- the name is free, whether the app-server attaches the thread, whether the file can be written, and
-- whether the registration can.
pub record Surroundings : Type 0 where
  pub owner : Config → Owner
  pub is_free : String → Bool
  pub attaches : Config → Bool
  pub saves : Config → Bool
  pub publishes : Config → Bool

-- delete(options, "op"); delete(options, "status")
unfoldable pub options : Fields → Fields
options empty = empty
options (field k v rest) =
    let others = options rest in
    if str_eq k "op" || str_eq k "status" then others else field k v others

abbrev pub checked : Checked Config → Result Config
checked (valid c) = ok c
checked (invalid e) = err bad_config

abbrev pub owned_or_error : Owner → Result (Unit {0})
owned_or_error Owner.owned = ok tt
owned_or_error Owner.no_owner = err no_owner
owned_or_error Owner.owner_gone = err owner_gone
owned_or_error Owner.host_unverified = err host_unverified

abbrev pub must : Bool → Error → Sql Node (Unit {0})
must true e = pure tt
must false e = raise e

abbrev pub set_config : Config → Sql Node (Unit {0})
set_config c = edit (λ n. record n { config = c })

-- One held message under the new configuration: whether the loop goes on.
unfoldable pub settle_held : Option State → Message → Sql Node Bool
unfolding on_store count transition_tx enqueue_status
settle_held (some unread) m = do
  n ← on_store (count unread "")
  if leb 50 n then pure false else (do
    on_store (transition_tx (m.id ∷ []) held unread)
    enqueue_status (some m) released "" []
    pure true)
settle_held (some _) m = pure true
settle_held none m = do
  on_store (transition_tx (m.id ∷ []) held State.declined)
  enqueue_status (some m) refused "" []
  pure true

unfoldable pub settle_all : List Row → Sql Node (Unit {0})
unfolding settle_held admission look
settle_all [] = pure tt
settle_all (x ∷ xs) = do
  verdict ← look (λ n. admission n.config x.content)
  more ← settle_held verdict x.content
  elim more [ true ↦ settle_all xs | false ↦ pure tt ]

-- changed := cfg.Delivery != old.Delivery || cfg.AppSocket != old.AppSocket
abbrev pub is_changed : Config → Config → Bool
is_changed old c = not (str_eq c.delivery old.delivery) || not (str_eq c.app_socket old.app_socket)

-- The client of the old delivery is closed, where there is one.
abbrev pub forget_client : Sql Node (Unit {0})
forget_client =
    edit
      (λ n. record n { has_client = false; attached = if n.has_client then false else n.attached })

module _ (around : Surroundings) where
  -- The part that only a new delivery has.
  unfoldable pub change_delivery : Config → Sql Node (Unit {0})
  unfolding on_store reset_delivery
  change_delivery c = do
    must (not (str_eq c.delivery "app-server") || around.attaches c) not_attached
    on_store reset_delivery

  unfoldable pub prepare : Config → Config → Sql Node (Unit {0})
  unfolding change_delivery
  prepare old c = do
    lift (owned_or_error (around.owner c))
    must (str_eq c.name old.name || around.is_free c.name) name_taken
    if is_changed old c then change_delivery c else pure tt
    must (around.saves c) not_saved

  -- Publication under the new name, or the old configuration again.
  unfoldable pub adopt : Config → Config → Sql Node (Unit {0})
  unfolding edit
  adopt old c = do
    set_config c
    if around.publishes c then pure tt else (do set_config old; raise not_published)

  -- configure(args); `apply` is applyConfig with the parameters it takes
  unfoldable pub configure : (Fields → Config → Checked Config) → Fields → Sql Node (Unit {0})
  unfolding look options prepare adopt on_store read_rows settle_all edit
  configure apply args = do
    old ← look (λ n. n.config)
    c ← lift (checked (apply (options args) old))
    prepare old c
    adopt old c
    if is_changed old c then forget_client else pure tt
    rows ← on_store (read_rows held "" 100)
    settle_all rows
    signal
