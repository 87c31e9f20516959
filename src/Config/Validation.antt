-- ===== src/Config/Validation.antt =====
-- `Validate` and `applyConfig` of manager.go, `checkHost` of lifecycle.go: what a configuration that
-- is accepted looks like.
use cross_session_codex.Common.{
  ◌≡◌, refl, ap, ◌∙◌, String, Bool, true, false, not, ◌&&◌, ◌||◌, Option, none, some, ◌≢◌, arith,
  str_eq, inl, inr, Bool-cases, ◌⊎◌, eq_iff,
}
use cross_session_codex.Json.{ℤ, pos, negsuc}
use cross_session_codex.Numbers.{int_eq, is_positive}
use cross_session_codex.Config.{
  Config, is_inbound, is_permission, is_delivery, is_abs, canonical_thread, Owner, owned, no_owner,
  owner_gone, host_unverified, observed, check_host,
}

-- What a worker relies on.
pub record IsConfig (parse_uuid : String → Option String) (normalize : String → String) (c : Config)
    : Type 0 where
  pub thread : canonical_thread parse_uuid c.thread ≡ some c.thread
  pub inbound : is_inbound c.inbound ≡ true
  pub permission : is_permission c.permission ≡ true
  pub delivery : is_delivery c.delivery ≡ true
  pub name : normalize c.name ≡ c.name
  pub named : str_eq c.name "" ≡ false
  pub socket : (not (str_eq c.delivery "app-server") || is_abs c.app_socket) ≡ true
  pub cwd : is_abs c.cwd ≡ true
  pub lease : is_positive c.lease ≡ true

-- What the answer of a host check says of the process that the configuration names.
abbrev pub Explains : (ℤ → Option String) → (ℤ → Bool) → Config → Owner → Type 0
Explains process_start has_exited c owned =
    ((c.host_pid ≡ pos 0) × (c.delivery ≡ "manual"))
    ⊎ (process_start c.host_pid ≡ some c.host_start)
Explains process_start has_exited c owner_gone =
    ((process_start c.host_pid ≡ none) × (has_exited c.host_pid ≡ true))
    ⊎ ((s : String) × (process_start c.host_pid ≡ some s) × (s ≢ c.host_start))
Explains process_start has_exited c no_owner =
    (is_positive c.host_pid ≡ false) ⊎ (c.host_start ≡ "")
Explains process_start has_exited c host_unverified =
    (process_start c.host_pid ≡ none) × (has_exited c.host_pid ≡ false)

observed-Explains :
    (process_start : ℤ → Option String) (has_exited : ℤ → Bool) (c : Config) (o : Option String)
    → process_start c.host_pid ≡ o
    → Explains process_start has_exited c (observed process_start has_exited c o)
unfolding observed
observed-Explains process_start has_exited c none h = elim (Bool-cases (has_exited c.host_pid)) [
  | inl e ↦ rw e (inl (h, e))
  | inr e ↦ rw e (h, e)
]
observed-Explains process_start has_exited c (some s) h =
    elim (Bool-cases (str_eq s c.host_start)) [
      | inl e ↦ rw e (inr (h ∙ ap some ((eq_iff s c.host_start).0 e)))
      | inr e ↦ rw e (inr (s, h, λ same. ground (arith, e, eq_iff s c.host_start, same)))
    ]

is_zero : (n : ℤ) → int_eq n (pos 0) ≡ true → n ≡ pos 0
is_zero (pos n) h = ap pos (ground arith)
is_zero (negsuc n) h = cc

and-manual :
    (n : ℤ) (s : String)
    → (int_eq n (pos 0) && str_eq s "manual") ≡ true
    → (n ≡ pos 0) × (s ≡ "manual")
and-manual n s h = (is_zero n (ground arith), (eq_iff s "manual").0 (ground arith))

or-missing :
    (n : ℤ) (s : String)
    → (not (is_positive n) || str_eq s "") ≡ true
    → (is_positive n ≡ false) ⊎ (s ≡ "")
or-missing n s h = elim (Bool-cases (is_positive n)) [
  | inl e ↦ inr ((eq_iff s "").0 (ground arith))
  | inr e ↦ inl e
]

-- Delivery is never automatic without an owner: a host check passes only for a manual delivery with
-- no host, or where the process of that id started when the configuration says. A failed observation
-- is not taken for an exit: the owner counts as gone only if no process has its id, or another one.
pub check_host-Explains :
    (process_start : ℤ → Option String) (has_exited : ℤ → Bool) (c : Config)
    → Explains process_start has_exited c (check_host process_start has_exited c)
unfolding check_host
check_host-Explains process_start has_exited c =
    elim (Bool-cases (int_eq c.host_pid (pos 0) && str_eq c.delivery "manual")) [
      | inl e ↦ rw e (inl (and-manual c.host_pid c.delivery e))
      | inr e ↦ rw e (elim (Bool-cases (not (is_positive c.host_pid) || str_eq c.host_start "")) [
        | inl f ↦ rw f (or-missing c.host_pid c.host_start f)
        | inr f ↦
            rw f (observed-Explains process_start has_exited c (process_start c.host_pid) refl)
      ])
    ]
