-- ===== src/Identity.antt =====
-- internal/bridge/peer_identity.go and peer_identity_linux.go: whether a process is the peer that an
-- endpoint names. Texts are lists of bytes. What the kernel's files hold is a parameter.
pub mod Stat
use cross_session_codex.Common.{
  ℕ, zero, suc, ◌+◌, ◌-◌, ◌*◌, ◌^◌, Bool, true, false, not, ◌&&◌, ◌||◌, List, [], ◌∷◌, ◌++◌, Option,
  none, some, ltb, leb, ◌==◌, if◌then◌else◌, length, get_elem?, Bytes, codes,
}
use cross_session_codex.Json.{ℤ}
use cross_session_codex.Numbers.{int_eq, is_positive}
use cross_session_codex.Bytes.{
  same_bytes, is_digit, all_bytes, is_canonical, value_from, is_white, cut_first, cut_last, trim,
  fields, has_byte, is_nothing, is_hex, strip_prefix, is_positive_numeral,
}

-- canonicalProcessTicks(start): and it fits 64 bits
unfoldable pub canonical_ticks : Bytes → Bool
canonical_ticks start = is_canonical start && ltb (value_from 0 start) (2 ^ 64)

-- len(fields[0]) == 1 && strings.Contains("RSDTtWKPI", fields[0])
abbrev pub is_live : Bytes → Bool
is_live (b ∷ []) = has_byte b (codes "RSDTtWKPI")
is_live _ = false

abbrev pub ticks_of : Bytes → Option Bytes → Option Bytes
ticks_of s none = none
ticks_of s (some start) = if canonical_ticks start && is_live s then some start else none

-- The start ticks, from the fields after the name of the program: the twentieth.
unfoldable pub start_from : List Bytes → Option Bytes
unfolding canonical_ticks
start_from [] = none
start_from (s ∷ fs) = ticks_of s (get_elem? (s ∷ fs) 19)

abbrev pub after_name : Option (Bytes × Bytes) → Option Bytes
after_name none = none
after_name (some (name, tail)) = start_from (fields tail)

abbrev pub of_process : Bytes → Option (Bytes × Bytes) → Option Bytes
of_process pid none = none
of_process pid (some (front, rest)) =
    if is_nothing front || not (same_bytes (trim front) pid)
    then none
    else after_name (cut_last b')' rest)

-- parseLinuxProcessStart(body, pid), with the decimal text of a positive pid. The last closing
-- parenthesis behind the opening one is the last one of the text, where there is one.
unfoldable pub parse_start : Bytes → Bytes → Option Bytes
unfolding cut_first cut_last fields start_from
parse_start pid body = of_process pid (cut_first b'(' body)

-- pid:[n]
abbrev bracketed : Option (Bytes × Bytes) → Bool
bracketed none = false
bracketed (some (n, rest)) = is_positive_numeral n && is_nothing rest

abbrev is_namespace : Bytes → Option Bytes → Bool
is_namespace s none = false
is_namespace s (some rest) = bracketed (cut_first b']' rest)

abbrev machine_and_namespace : Option (Bytes × Bytes) → Option (Bytes × Bytes)
machine_and_namespace none = none
machine_and_namespace (some (m, n)) =
    if length m == 32 && all_bytes is_hex m && is_namespace n (strip_prefix (codes "pid:[") n)
    then some (m, n)
    else none

abbrev after_linux : Option Bytes → Option (Bytes × Bytes)
after_linux none = none
after_linux (some rest) = machine_and_namespace (cut_first b':' rest)

unfoldable pub domain_parts : Bytes → Option (Bytes × Bytes)
unfolding cut_first
domain_parts domain = after_linux (strip_prefix (codes "linux:") domain)

-- What the kernel's files hold: /etc/machine-id, the namespaces of the own process and of the peer,
-- and the stat file of the peer.
pub record Kernel : Type 0 where
  pub machine : Option Bytes
  pub own_namespace : Option Bytes
  pub namespace_of : ℤ → Option Bytes
  pub stat_of : ℤ → Option Bytes

abbrev pub holds : Option Bytes → Bytes → Bool
holds none s = false
holds (some t) s = same_bytes t s

abbrev trimmed : Option Bytes → Option Bytes
trimmed none = none
trimmed (some s) = some (trim s)

abbrev started : Bytes → Option Bytes → Option Bytes
started pid none = none
started pid (some body) = parse_start pid body

module _ (decimal : ℤ → Bytes) (k : Kernel) where
  abbrev pub lives_in : ℤ → Bytes → Option (Bytes × Bytes) → Bool
  lives_in pid start none = false
  lives_in pid start (some (machine, namespace)) =
      holds (trimmed k.machine) machine
      && holds k.own_namespace namespace
      && holds (k.namespace_of pid) namespace
      && holds (started (decimal pid) (k.stat_of pid)) start

  -- verifyLinuxPeerIdentity(pid, start, domain): no error
  unfoldable pub verify_linux : ℤ → Bytes → Bytes → Bool
  unfolding canonical_ticks parse_start domain_parts
  verify_linux pid start domain =
      is_positive pid && canonical_ticks start && lives_in pid start (domain_parts domain)

-- The checks of any platform: `own` is runtime.GOOS, `process_start` is processStart, and `platform`
-- is verifyPlatformPeerIdentity.
module _ (own : Bytes) (process_start : ℤ → Option Bytes)
    (platform : ℤ → Bytes → Bytes → Bool) where
  -- verifyPeerIdentity(pid, start, domain): no error
  unfoldable pub verify_peer : ℤ → Bytes → Bytes → Bool
  verify_peer pid start domain =
      if not (is_positive pid) || is_nothing start
      then false
      else if same_bytes domain own
      then holds (process_start pid) start
      else platform pid start domain

  -- peerReceiptMatches(target, pid, observedStart), by the identity of the target
  unfoldable pub receipt_matches : ℤ → Bytes → Bytes → ℤ → Bytes → Bool
  receipt_matches target_pid target_start target_domain pid observed =
      if not (int_eq target_pid pid)
      then false
      else if is_nothing target_domain || same_bytes target_domain own
      then same_bytes target_start observed
      else holds (process_start pid) observed && platform pid target_start target_domain
