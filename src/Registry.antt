-- ===== src/Registry.antt =====
-- Which peers a session finds and which addresses and files it trusts: `owned`, `socketPath`,
-- `connectVerifiedPeer`, `Discover`, `resolve`, `replyTarget`, `sendFrame` and `readLine` of
-- internal/bridge/protocol.go.
pub mod Resolving
pub mod Sending
use cross_session_codex.Common.{
  ℕ, zero, suc, ◌+◌, ◌-◌, ◌/◌, ◌%◌, Bool, true, false, not, ◌&&◌, ◌||◌, List, [], ◌∷◌, ◌++◌, Option,
  none, some, ltb, leb, ◌==◌, if◌then◌else◌, length, Bytes, codes, String, str_eq,
}
use cross_session_codex.Bytes.{
  same_bytes, is_nothing, is_digit, all_bytes, has_byte, is_canonical, is_positive_numeral,
  strip_prefix, split_on, cut_last, is_hex, value_from,
}
use cross_session_codex.Json.{ℤ, pos, negsuc}
use cross_session_codex.Numbers.{int_eq, is_positive}
use cross_session_codex.Path.{clean, dir, base, is_abs}
use cross_session_codex.Peer.{Peer, PeerKey}

-- (?:-(?:0|[1-9]\d*))? and the end of the text
abbrev pub user_suffix : Option Bytes → Bool
user_suffix none = false
user_suffix (some []) = true
user_suffix (some (b ∷ bs)) = b == b'-' && is_canonical bs

-- (?:0|[1-9]\d*)/cc-socks and the end of the text
abbrev pub run_parts : List Bytes → Bool
run_parts (n ∷ d ∷ []) = is_canonical n && same_bytes d (codes "cc-socks")
run_parts _ = false

abbrev pub run_suffix : Option Bytes → Bool
run_suffix none = false
run_suffix (some rest) = run_parts (split_on b'/' rest)

-- socketDirRE
unfoldable pub is_socket_dir : Bytes → Bool
is_socket_dir d =
    user_suffix (strip_prefix (codes "/tmp/cc-socks") d)
    || user_suffix (strip_prefix (codes "/private/tmp/cc-socks") d)
    || run_suffix (strip_prefix (codes "/run/user/") d)
    || user_suffix (strip_prefix (codes "/data/data/com.termux/files/usr/tmp/cc-socks") d)

-- socketNameRE
abbrev pub number_and_kind : Option (Bytes × Bytes) → Bool
number_and_kind none = false
number_and_kind (some (n, kind)) = is_positive_numeral n && same_bytes kind (codes "sock")

unfoldable pub is_socket_name : Bytes → Bool
is_socket_name name = number_and_kind (cut_last b'.' name)

-- strings.ContainsAny(p, " \t\n\r")
abbrev pub has_blank : Bytes → Bool
has_blank p = has_byte b' ' p || has_byte 9 p || has_byte 10 p || has_byte 13 p

abbrev pub is_peer_path : Bytes → Bool
is_peer_path p =
    is_abs p
    && (same_bytes (clean p) p
        && (not (has_blank p) && (is_socket_dir (dir p) && is_socket_name (base p))))

abbrev pub if_peer_path : Option Bytes → Option Bytes
if_peer_path none = none
if_peer_path (some p) = if is_peer_path p then some p else none

-- The path of an address that starts with uds:.
unfoldable pub socket_path : Bytes → Option Bytes
socket_path address = if_peer_path (strip_prefix (codes "uds:") address)

-- What Lstat says of a file: its type, its owner and whether others may do something to it.
pub data FileType : Type 0 where
  directory : FileType
  socket : FileType
  plain : FileType
  unusual : FileType

pub record Stat : Type 0 where
  pub kind : FileType
  pub uid : ℕ
  -- whether the mode has a bit of 0022, and one of 0077
  pub writable_by_others : Bool
  pub open_to_others : Bool
  -- device and inode
  pub identity : ℕ × ℕ

abbrev pub same_type : FileType → FileType → Bool
same_type directory directory = true
same_type socket socket = true
same_type plain plain = true
same_type unusual unusual = true
same_type _ _ = false

abbrev pub is_owned : FileType → Bool → ℕ → Stat → ℕ → Bool
is_owned kind secret self s raw_uid =
    same_type s.kind kind
    && (raw_uid == self && not (if secret then s.open_to_others else s.writable_by_others))

-- The file that two calls of Lstat describe, where it is safe; the owner is taken from the second.
unfoldable pub owned : FileType → Bool → ℕ → Option Stat → Option Stat → Option Stat
owned kind secret self none raw = none
owned kind secret self (some s) none = none
owned kind secret self (some s) (some raw) =
    if is_owned kind secret self s raw.uid then some s else none

-- os.SameFile
abbrev pub same_file : Stat → Stat → Bool
same_file a b = a.identity.0 == b.identity.0 && a.identity.1 == b.identity.1

-- What a connection meets: vetParents of the directory, its two Lstat, those of the socket before and
-- after, verifyPeerIdentity of a pid now and after dialing, whether dialing and the deadline work, and
-- the credentials of the other end.
pub record Meeting : Type 0 where
  pub self : ℕ
  pub parents : Bool
  pub directory_stat : Option Stat
  pub directory_raw : Option Stat
  pub before : Option Stat
  pub before_raw : Option Stat
  pub verified : ℤ → Bool
  pub dialed : Bool
  pub deadline : Bool
  pub credentials : Option (ℤ × ℕ)
  pub after : Option Stat
  pub after_raw : Option Stat
  pub verified_after : ℤ → Bool

-- The checks after dialing, on the owned socket before and after.
abbrev pub same_endpoint : Meeting → ℤ → Stat → Option (ℤ × ℕ) → Option Stat → Bool
same_endpoint m pid before none after = false
same_endpoint m pid before (some (p, u)) none = false
same_endpoint m pid before (some (p, u)) (some after) =
    m.verified_after p && (u == m.self && (int_eq p pid && same_file before after))

abbrev pub check_socket : Meeting → ℤ → Option Stat → Bool
check_socket m pid none = false
check_socket m pid (some before) =
    m.verified pid
    && (m.dialed
        && (m.deadline
            && same_endpoint m pid before m.credentials
                (owned socket true m.self m.after m.after_raw)))

abbrev pub is_safe : Option Stat → Bool
is_safe none = false
is_safe (some s) = true

-- Whether connectVerifiedPeer returns a connection.
unfoldable pub connect_verified_peer : Meeting → ℤ → Bool
unfolding owned
connect_verified_peer m pid =
    m.parents
    && (is_safe (owned directory true m.self m.directory_stat m.directory_raw)
        && check_socket m pid (owned socket true m.self m.before m.before_raw))
