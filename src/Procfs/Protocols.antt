-- ===== src/Procfs/Protocols.antt =====
-- appserver_connections_linux.go: the tables of the other protocols.
use cross_session_codex.Common.{
  ℕ, suc, Bool, true, false, not, ◌&&◌, ◌||◌, List, [], ◌∷◌, ◌++◌, Option, none, some, ltb, ◌==◌,
  if◌then◌else◌, length, get_elem?, take, drop, Bytes, codes,
}
use cross_session_codex.Bytes.{same_bytes, has_byte, cut_first, fields, join_with}
use cross_session_codex.Procfs.{parse_uint, is_some, is_int, ◌>>=◌, ◌>>◌, require}
use cross_session_codex.Procfs.Tables.{table_lines, valid_after, before_colon, header_of}

-- The tables of the other protocols.
pub data Protocol : Type 0 where
  tcp tcp6 udp udp6 netlink : Protocol

abbrev pub name_of : Protocol → Bytes
name_of tcp = codes "tcp"
name_of tcp6 = codes "tcp6"
name_of udp = codes "udp"
name_of udp6 = codes "udp6"
name_of netlink = codes "netlink"

abbrev internet_header : Bytes → Bytes
internet_header remote =
    codes "sl local_address "
    ++ remote
    ++ codes " st tx_queue rx_queue tr tm->when retrnsmt uid timeout inode"

abbrev other_header : Protocol → Bytes
other_header tcp = internet_header (codes "rem_address")
other_header tcp6 = internet_header (codes "remote_address")
other_header udp = internet_header (codes "rem_address") ++ codes " ref pointer drops"
other_header udp6 = internet_header (codes "remote_address") ++ codes " ref pointer drops"
other_header netlink = codes "sk Eth Pid Groups Rmem Wmem Dump Locks Drops Inode"

abbrev minimum : Protocol → ℕ
minimum tcp = 12
minimum tcp6 = 12
minimum udp = 13
minimum udp6 = 13
minimum netlink = 10

abbrev address_size : Protocol → ℕ
address_size tcp6 = 32
address_size udp6 = 32
address_size _ = 8

abbrev is_uint : ℕ → Bytes → Bool
is_uint base s = is_some (parse_uint base 64 s)

-- The base of the number in a field of netlink's table.
abbrev base_at : ℕ → ℕ
base_at i = if i == 0 || i == 3 || i == 6 then 16 else 10

abbrev valid_netlink : ℕ → List Bytes → Bool
valid_netlink i [] = true
valid_netlink i (f ∷ fs) = is_uint (base_at i) f && valid_netlink (suc i) fs

abbrev valid_halves : ℕ → ℕ → Option (Bytes × Bytes) → Bool
valid_halves left right none = false
valid_halves left right (some (a, b)) =
    length a == left
    && length b == right
    && is_uint 16 b
    && (if left == 32 then is_uint 16 (take 16 a) && is_uint 16 (drop 16 a) else is_uint 16 a)

-- pair(value, left, right)
abbrev pair : Bytes → ℕ → ℕ → Bool
pair value left right = valid_halves left right (cut_first b':' value)

abbrev all_ints : List Bytes → Bool
all_ints [] = true
all_ints (f ∷ fs) = is_int f && all_ints fs

abbrev valid_internet : ℕ → List Bytes → Bool
valid_internet size (f0 ∷ f1 ∷ f2 ∷ f3 ∷ f4 ∷ f5 ∷ f6 ∷ f7 ∷ f8 ∷ f9 ∷ f10 ∷ f11 ∷ trailing) =
    valid_after 10 (before_colon f0)
    && pair f1 size 4
    && pair f2 size 4
    && is_uint 16 f3
    && pair f4 8 8
    && pair f5 2 8
    && is_uint 16 f6
    && is_uint 10 f7
    && is_uint 10 f8
    && is_uint 10 f10
    && is_uint 16 f11
    && all_ints trailing
valid_internet size _ = false

-- validateConnectionOtherFields(fields, table): no error
unfoldable pub valid_fields : Protocol → List Bytes → Bool
unfolding parse_uint is_int cut_first
valid_fields netlink row = valid_netlink 0 row
valid_fields table row = valid_internet (address_size table) row

abbrev pub add_other : ℕ → List ℕ → Option (List ℕ)
add_other inode done =
    if inode == 0 then some done else if has_byte inode done then none else some (inode ∷ done)

-- The loop over the rows of another table: the inodes that it names.
unfoldable pub other_rows : Protocol → List Bytes → List ℕ → Option (List ℕ)
unfolding fields valid_fields
other_rows table [] done = some done
other_rows table (line ∷ lines) done = do
  require (not (ltb (length (fields line)) (minimum table)))
  require (valid_fields table (fields line))
  field ← get_elem? (fields line) 9
  inode ← parse_uint 10 64 field
  now ← add_other inode done
  other_rows table lines now

abbrev other_table : Protocol → List Bytes → Option (List ℕ)
other_table table [] = none
other_table table (header ∷ rows) = do
  require (same_bytes (header_of header) (other_header table))
  other_rows table rows []

-- parseConnectionOther(data, table)
unfoldable pub parse_other : Bytes → Protocol → Option (List ℕ)
unfolding table_lines other_rows fields join_with
parse_other content table = table_lines content >>= other_table table
