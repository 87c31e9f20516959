-- ===== src/Procfs/Sockets.antt =====
-- appserver_connections_linux.go: what a process is, and the sockets of its descriptors.
use cross_session_codex.Common.{
  ℕ, not, List, [], ◌∷◌, ◌++◌, Option, none, some, ltb, ◌==◌, if◌then◌else◌, length, get_elem?,
  Bytes, codes,
}
use cross_session_codex.Bytes.{same_bytes, has_byte, strip_prefix, fields}
use cross_session_codex.Path.{starts_with}
use cross_session_codex.Procfs.{
  Socket, Process, Read, holds, missing, refused, fd_limit, parse_uint, is_some, look_up, put_entry,
  ◌>>=◌, ◌>>◌, require,
}
use cross_session_codex.Procfs.Tables.{front_and_last, parse_unix}
use cross_session_codex.Procfs.Protocols.{
  parse_other, Protocol, tcp, tcp6, udp, udp6, netlink, name_of,
}

abbrev not_zero : ℕ → Option ℕ
not_zero n = if n == 0 then none else some n

-- The number before the bracket that ends a link.
abbrev in_brackets : Option (Bytes × ℕ) → Option ℕ
in_brackets none = none
in_brackets (some (number, last)) = require (last == b']') >> parse_uint 10 64 number >>= not_zero

-- connectionLinkInode(link, kind)
unfoldable pub link_inode : Bytes → Bytes → Option ℕ
unfolding parse_uint
link_inode kind link =
    strip_prefix (kind ++ codes ":[") link >>= λ rest. in_brackets (front_and_last rest)

-- The text behind the last ") ".
abbrev after_last_name : Bytes → Option Bytes
after_last_name [] = none
after_last_name (b ∷ bs) = elim (after_last_name bs) [
  | some rest ↦ some rest
  | none ↦ strip_prefix (codes ") ") (b ∷ bs)
]

-- What a snapshot finds: the file stat, the link of the network namespace, and the entries of the
-- directory of descriptors with their links. A failed call is `none`, and so is one after the end of
-- the context.
pub record Snapshot : Type 0 where
  pub stat : Option Bytes
  pub link : Option Bytes
  pub entries : Option (List (Bytes × Option Bytes))

-- The start of a process, in a stat file that is its own.
unfoldable pub stat_start : Bytes → Bytes → Option Bytes
unfolding fields parse_uint
stat_start pid text = do
  require (starts_with (pid ++ codes " (") text)
  rest ← after_last_name text
  require (not (ltb (length (fields rest)) 20))
  start ← get_elem? (fields rest) 19
  require (is_some (parse_uint 10 64 start))
  some start

-- The loop over the descriptors.
unfoldable pub read_descriptors :
    List (Bytes × Option Bytes) → List (Bytes × Bytes) → Option (List (Bytes × Bytes))
unfolding parse_uint
read_descriptors [] fds = some fds
read_descriptors ((name, link) ∷ entries) fds = do
  require (is_some (parse_uint 10 32 name))
  target ← link
  read_descriptors entries (put_entry same_bytes name target fds)

-- snapshotConnectionProcess(ctx, base, pid, read), with the decimal text of the pid
unfoldable pub snapshot_process : Bytes → Snapshot → Option Process
unfolding stat_start link_inode read_descriptors
snapshot_process pid s = do
  text ← s.stat
  start ← stat_start pid text
  namespace ← s.link
  require (is_some (link_inode (codes "net") namespace))
  entries ← s.entries
  require (not (ltb fd_limit (length entries)))
  fds ← read_descriptors entries []
  some (record { start = start; namespace = namespace; fds = fds })

abbrev pub add_wanted : ℕ → List ℕ → List ℕ
add_wanted inode wanted = if has_byte inode wanted then wanted else inode ∷ wanted

-- The inode that a descriptor adds to the wanted ones, if it is a socket.
abbrev pub wanted_by : Bytes → List ℕ → Option (List ℕ)
wanted_by target wanted =
    if starts_with (codes "socket:") target
    then (link_inode (codes "socket") target >>= λ inode. some (add_wanted inode wanted))
    else some wanted

unfoldable pub wanted_sockets : List (Bytes × Bytes) → List ℕ → Option (List ℕ)
unfolding link_inode
wanted_sockets [] wanted = some wanted
wanted_sockets ((name, target) ∷ fds) wanted = wanted_by target wanted >>= wanted_sockets fds

abbrev pub add_found : ℕ → Option Socket → List (ℕ × Socket) → List (ℕ × Socket)
add_found inode none found = found
add_found inode (some s) found = (inode, s) ∷ found

-- The wanted sockets that the table of Unix sockets has.
abbrev pub of_unix : List (ℕ × Socket) → List ℕ → List (ℕ × Socket)
of_unix table [] = []
of_unix table (inode ∷ wanted) = add_found inode (look_up ◌==◌ inode table) (of_unix table wanted)

abbrev pub plain_socket : Protocol → Socket
plain_socket table = record { protocol = name_of table; path = []; flags = 0; kind = 0; state = 0 }

abbrev pub add_one : Protocol → List ℕ → ℕ → List (ℕ × Socket) → Option (List (ℕ × Socket))
add_one table wanted inode found =
    if not (has_byte inode wanted)
    then some found
    else if is_some (look_up ◌==◌ inode found)
    then none
    else some ((inode, plain_socket table) ∷ found)

-- The loop over the inodes of another table.
abbrev pub add_inodes : Protocol → List ℕ → List ℕ → List (ℕ × Socket) → Option (List (ℕ × Socket))
add_inodes table wanted [] found = some found
add_inodes table wanted (inode ∷ inodes) found =
    add_one table wanted inode found >>= add_inodes table wanted inodes

-- The table that is read adds to what is found; one that does not exist adds nothing.
abbrev pub add_table : Protocol → List ℕ → Read → List (ℕ × Socket) → Option (List (ℕ × Socket))
add_table table wanted missing found = some found
add_table table wanted refused found = none
add_table table wanted (holds content) found =
    parse_other content table >>= λ inodes. add_inodes table wanted inodes found

-- The loop over the other tables, which ends where every wanted socket is found.
unfoldable pub search_tables :
    (Protocol → Read) → List ℕ → List Protocol → List (ℕ × Socket) → Option (List (ℕ × Socket))
unfolding parse_other
search_tables read wanted [] found = some found
search_tables read wanted (table ∷ tables) found =
    if length found == length wanted
    then some found
    else (add_table table wanted (read table) found >>= search_tables read wanted tables)

-- What the files under net hold at one time.
pub record Tables : Type 0 where
  pub unix : Read
  pub other : Protocol → Read

abbrev pub unix_content : Read → Option Bytes
unix_content (holds content) = some content
unix_content _ = none

-- readConnectionSockets(ctx, base, fds, read)
unfoldable pub read_sockets : List (Bytes × Bytes) → Tables → Option (List (ℕ × Socket))
unfolding wanted_sockets parse_unix search_tables
read_sockets fds tables = do
  wanted ← wanted_sockets fds []
  content ← unix_content tables.unix
  table ← parse_unix content
  found ←
      search_tables tables.other wanted (tcp ∷ tcp6 ∷ udp ∷ udp6 ∷ netlink ∷ [])
        (of_unix table wanted)
  require (length found == length wanted)
  some found
