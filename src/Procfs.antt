-- ===== src/Procfs.antt =====
-- internal/bridge/appserver_connections_linux.go: the connections of the app-server, from the files of
-- /proc. Texts are lists of bytes; every error is `none`, since each of them only stops the inspection.
-- Here are the types, the numerals of `strconv` and the maps.
pub mod Tables
pub mod Protocols
pub mod Sockets
pub mod Inspection
pub mod Counted
pub mod Found
pub mod Classified
use cross_session_codex.Common.{
  ℕ, suc, ◌+◌, ◌-◌, ◌*◌, ◌^◌, ◌≡◌, refl, Bool, true, false, not, ◌&&◌, ◌||◌, List, [], ◌∷◌, Option,
  none, some, ltb, leb, ◌==◌, if◌then◌else◌, length, Bytes,
}
use cross_session_codex.Bytes.{same_bytes, is_nothing}

-- connectionSocket
pub record Socket : Type 0 where
  pub protocol : Bytes
  pub path : Bytes
  pub flags : ℕ
  pub kind : ℕ
  pub state : ℕ

-- connectionProcess
pub record Process : Type 0 where
  pub start : Bytes
  pub namespace : Bytes
  pub fds : List (Bytes × Bytes)

-- What a read of a file answers: what it holds, that it does not exist, or another error, the end of
-- the context among them.
pub data Read : Type 0 where
  holds : Bytes → Read
  missing : Read
  refused : Read

abbrev pub proc_limit : ℕ
proc_limit = 8 * 2 ^ 20

abbrev pub fd_limit : ℕ
fd_limit = 65536

infixl 5 ◌>>=◌ ◌>>◌
abbrev pub ◌>>=◌ : {A B : Type 0} → Option A → (A → Option B) → Option B
none >>= f = none
some x >>= f = f x

abbrev pub ◌>>◌ : {A B : Type 0} → Option A → Option B → Option B
none >> n = none
some x >> n = n

abbrev pub require : Bool → Option (Unit {0})
require b = if b then some tt else none

pub bind-some :
    {A B : Type 0} (m : Option A) (f : A → Option B) (b : B)
    → (m >>= f) ≡ some b
    → (a : A) × (m ≡ some a) × (f a ≡ some b)
bind-some none f b h = absurd cc
bind-some (some a) f b h = (a, refl, h)

pub require-some :
    {B : Type 0} (t : Bool) (m : Option B) (b : B)
    → (require t >> m) ≡ some b
    → (t ≡ true) × (m ≡ some b)
require-some true m b h = (refl, h)
require-some false m b h = absurd cc

-- The value of a digit in any base up to 36, and 36 for any other byte.
abbrev digit_value : ℕ → ℕ
digit_value b =
    if leb b'0' b && leb b b'9'
    then b - b'0'
    else if leb b'a' b && leb b b'z'
    then b - b'a' + 10
    else if leb b'A' b && leb b b'Z'
    then b - b'A' + 10
    else 36

abbrev number_from : ℕ → ℕ → Bytes → Option ℕ
number_from base n [] = some n
number_from base n (b ∷ bs) =
    let rest = number_from base (n * base + digit_value b) bs in
    if ltb (digit_value b) base then rest else none

abbrev within_bits : ℕ → Option ℕ → Option ℕ
within_bits bits none = none
within_bits bits (some n) = if ltb n (2 ^ bits) then some n else none

-- strconv.ParseUint(s, base, bits), for a base from 2 to 36
unfoldable pub parse_uint : ℕ → ℕ → Bytes → Option ℕ
parse_uint base bits s = if is_nothing s then none else within_bits bits (number_from base 0 s)

abbrev pub is_some {ℓ} : {A : Type ℓ} → Option A → Bool
is_some none = false
is_some (some x) = true

-- A magnitude of at most the bound.
abbrev at_most : ℕ → Option ℕ → Bool
at_most bound none = false
at_most bound (some n) = leb n bound

-- strconv.ParseInt(s, 10, 64): no error
unfoldable pub is_int : Bytes → Bool
unfolding parse_uint
is_int [] = false
is_int (b ∷ bs) =
    if b == b'-'
    then at_most (2 ^ 63) (parse_uint 10 64 bs)
    else if b == b'+'
    then at_most (2 ^ 63 - 1) (parse_uint 10 64 bs)
    else at_most (2 ^ 63 - 1) (parse_uint 10 64 (b ∷ bs))

-- A map is the list of its keys with their values.
module _ {K V : Type 0} (same_key : K → K → Bool) where
  abbrev pub look_up : K → List (K × V) → Option V
  look_up k [] = none
  look_up k ((l, v) ∷ m) = let rest = look_up k m in if same_key l k then some v else rest

  abbrev pub put_entry : K → V → List (K × V) → List (K × V)
  put_entry k v [] = (k, v) ∷ []
  put_entry k v ((l, w) ∷ m) =
      let rest = put_entry k v m in if same_key l k then (k, v) ∷ m else (l, w) ∷ rest

  module _ (same_value : V → V → Bool) where
    abbrev same_found : V → Option V → Bool
    same_found v none = false
    same_found v (some w) = same_value v w

    abbrev within_map : List (K × V) → List (K × V) → Bool
    within_map [] n = true
    within_map ((k, v) ∷ m) n = same_found v (look_up k n) && within_map m n

    -- maps.Equal(m, n)
    abbrev pub same_map : List (K × V) → List (K × V) → Bool
    same_map m n = length m == length n && within_map m n

abbrev pub same_socket : Socket → Socket → Bool
same_socket a b =
    same_bytes a.protocol b.protocol
    && same_bytes a.path b.path
    && a.flags == b.flags
    && a.kind == b.kind
    && a.state == b.state
