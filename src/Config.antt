-- ===== src/Config.antt =====
-- internal/bridge/manager.go and lifecycle.go: the configuration of a worker, its validation, and
-- the check of the client process that owns it.
pub mod Validation
use cross_session_codex.Common.{
  ℕ, String, Bool, true, false, not, ◌&&◌, ◌||◌, Option, none, some, str_eq, if◌then◌else◌,
}
use cross_session_codex.Json.{
  ℤ, pos, negsuc, Json, Fields, empty, field, text, num_or, text_or_empty,
}
use cross_session_codex.Numbers.{int_eq, is_positive}
use package.text.Mathlib.Text.{starts_with}

pub record Config : Type 0 where
  pub thread : String
  pub cwd : String
  pub name : String
  pub inbound : String
  pub permission : String
  pub delivery : String
  pub app_socket : String
  pub executable : String
  pub lease : ℤ
  pub host_pid : ℤ
  pub host_start : String

-- Why a configuration is refused.
pub data ConfigError : Type 0 where
  bad_thread bad_inbound bad_permission bad_delivery empty_name relative_socket relative_cwd
        not_a_string cwd_unresolved unknown_option :
      ConfigError

pub data Checked (A : Type 0) : Type 0 where
  valid : A → Checked A
  invalid : ConfigError → Checked A

infixl 5 ◌>>=◌
abbrev pub ◌>>=◌ : {A B : Type 0} → Checked A → (A → Checked B) → Checked B
valid a >>= f = f a
invalid e >>= f = invalid e

abbrev pub require : Bool → ConfigError → Checked (Unit {0})
require true e = valid tt
require false e = invalid e

abbrev pub is_inbound : String → Bool
is_inbound s = str_eq s "parity" || str_eq s "accept" || str_eq s "hold" || str_eq s "refuse"

abbrev pub is_permission : String → Bool
is_permission s = str_eq s "prompting" || str_eq s "bypass"

abbrev pub is_delivery : String → Bool
is_delivery s = str_eq s "app-server" || str_eq s "manual"

-- filepath.IsAbs(p)
abbrev pub is_abs : String → Bool
is_abs p = starts_with p "/"

-- uuid.Parse, with the canonical text of what it reads; and the text of uuid.Nil
abbrev pub nil_uuid : String
nil_uuid = "00000000-0000-0000-0000-000000000000"

abbrev not_nil : Option String → Option String
not_nil none = none
not_nil (some id) = if str_eq id nil_uuid then none else some id

-- canonicalThread(s)
unfoldable pub canonical_thread : (String → Option String) → String → Option String
canonical_thread parse_uuid s = not_nil (parse_uuid s)

abbrev pub or_invalid : {A : Type 0} → ConfigError → Option A → Checked A
or_invalid e none = invalid e
or_invalid e (some a) = valid a

module _ (parse_uuid : String → Option String) (normalize : String → String) where
  -- c.Validate(): the configuration as it is after the call
  unfoldable pub validate : Config → Checked Config
  unfolding canonical_thread
  validate c = do
    id ← or_invalid bad_thread (canonical_thread parse_uuid c.thread)
    _ ← require (is_inbound c.inbound) bad_inbound
    _ ← require (is_permission c.permission) bad_permission
    _ ← require (is_delivery c.delivery) bad_delivery
    let name = normalize c.name
    _ ← require (not (str_eq name "")) empty_name
    _ ← require (not (str_eq c.delivery "app-server") || is_abs c.app_socket) relative_socket
    _ ← require (is_abs c.cwd) relative_cwd
    valid (record c {
      thread = id;
      name = name;
      lease = if is_positive c.lease then c.lease else pos 86400;
    })

-- One option of `applyConfig`; `abs` is filepath.Abs.
module _ (abs : String → Option String) where
  abbrev with_text : Json → (String → Checked Config) → Checked Config
  with_text (text s) f = f s
  with_text _ f = invalid not_a_string

  unfoldable pub apply_option : String → Json → Config → Checked Config
  apply_option k v c =
      if str_eq k "name"
      then with_text v (λ s. valid (record c { name = s }))
      else if str_eq k "inbound"
      then with_text v (λ s. valid (record c { inbound = s }))
      else if str_eq k "permission_class"
      then with_text v (λ s. valid (record c { permission = s }))
      else if str_eq k "delivery"
      then with_text v (λ s. valid (record c { delivery = s }))
      else if str_eq k "app_server_socket"
      then with_text v (λ s. valid (record c { app_socket = s }))
      else if str_eq k "cwd"
      then with_text v
          (λ s. or_invalid cwd_unresolved (abs s) >>= λ p. valid (record c { cwd = p }))
      else if str_eq k "host_pid"
      then valid (record c { host_pid = num_or (pos 0) v })
      else if str_eq k "host_start"
      then valid (record c { host_start = text_or_empty v })
      else invalid unknown_option

  unfoldable pub apply_options : Fields → Config → Checked Config
  unfolding apply_option
  apply_options empty c = valid c
  apply_options (field k v rest) c = do next ← apply_option k v c; apply_options rest next

  -- applyConfig(c, args)
  unfoldable pub apply_config :
      (String → Option String) → (String → String) → Fields → Config → Checked Config
  unfolding apply_options validate
  apply_config parse_uuid normalize args c = do
    next ← apply_options args c
    validate parse_uuid normalize next

-- What `checkHost` finds out about the owner.
pub data Owner : Type 0 where
  owned no_owner owner_gone host_unverified : Owner

-- c.checkHost(); `process_start` is processStart, and `has_exited` says that a signal finds no process.
module _ (process_start : ℤ → Option String) (has_exited : ℤ → Bool) where
  unfoldable pub observed : Config → Option String → Owner
  observed c none = if has_exited c.host_pid then owner_gone else host_unverified
  observed c (some start) = if str_eq start c.host_start then owned else owner_gone

  unfoldable pub check_host : Config → Owner
  check_host c =
      if int_eq c.host_pid (pos 0) && str_eq c.delivery "manual"
      then owned
      else if not (is_positive c.host_pid) || str_eq c.host_start ""
      then no_owner
      else observed c (process_start c.host_pid)
