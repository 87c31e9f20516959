-- ===== src/Procfs/Tables.antt =====
-- appserver_connections_linux.go: the lines of a table, and the table of Unix sockets.
use cross_session_codex.Common.{
  ℕ, zero, suc, Bool, false, not, ◌||◌, List, [], ◌∷◌, Option, none, some, ltb, ◌==◌, if◌then◌else◌,
  length, Bytes, codes,
}
use cross_session_codex.Bytes.{same_bytes, is_nothing, has_byte, fields, split_on, join_with}
use cross_session_codex.Procfs.{
  Socket, parse_uint, is_some, look_up, proc_limit, ◌>>=◌, ◌>>◌, require,
}

-- The front of a text and its last byte.
abbrev pub front_and_last : Bytes → Option (Bytes × ℕ)
front_and_last [] = none
front_and_last (b ∷ bs) = elim (front_and_last bs) [
  | none ↦ some ([], b)
  | some (front, l) ↦ some (b ∷ front, l)
]

abbrev lines_of : Bytes → Option (Bytes × ℕ) → Option (List Bytes)
lines_of content none = none
lines_of content (some (front, l)) =
    if ltb proc_limit (length content) || not (l == 10) || has_byte 0 content
    then none
    else some (split_on 10 front)

-- connectionTableLines(data)
unfoldable pub table_lines : Bytes → Option (List Bytes)
unfolding split_on
table_lines content = lines_of content (front_and_last content)

abbrev pub is_blank : ℕ → Bool
is_blank b = b == b' ' || b == 9

-- strings.TrimLeft(line, " \t")
abbrev pub trim_blanks : Bytes → Bytes
trim_blanks [] = []
trim_blanks (b ∷ bs) = let rest = trim_blanks bs in if is_blank b then rest else b ∷ bs

-- The text up to the first blank, and from it on.
abbrev pub cut_blank : Bytes → Bytes × Bytes
cut_blank [] = ([], [])
cut_blank (b ∷ bs) =
    let rest : Bytes × Bytes = cut_blank bs in
    if is_blank b then ([], b ∷ bs) else (b ∷ rest.0, rest.1)

-- The first fields of a row, none of them empty, and the rest of the line.
unfoldable pub row_fields : ℕ → Bytes → Option (List Bytes × Bytes)
row_fields zero line = some ([], line)
row_fields (suc n) line =
    let cut : Bytes × Bytes = cut_blank (trim_blanks line) in
    elim (row_fields n cut.1) [
      | none ↦ none
      | some (more, rest) ↦ if is_nothing cut.0 then none else some (cut.0 ∷ more, rest)
    ]

-- strings.TrimSuffix(s, ":"), where the text ends so
abbrev pub before_colon : Bytes → Option Bytes
before_colon s = elim (front_and_last s) [
  | none ↦ none
  | some (front, l) ↦ if l == b':' then some front else none
]

abbrev pub valid_after : ℕ → Option Bytes → Bool
valid_after base none = false
valid_after base (some s) = is_some (parse_uint base 64 s)

-- The socket of a row and its inode.
abbrev pub unix_row : List Bytes × Bytes → Option (ℕ × Socket)
unix_row (n ∷ refs ∷ protocol ∷ flags ∷ kind ∷ state ∷ inode ∷ [], rest) = do
  require (valid_after 16 (before_colon n))
  require (is_some (parse_uint 16 64 refs))
  p ← parse_uint 16 64 protocol
  f ← parse_uint 16 64 flags
  k ← parse_uint 16 64 kind
  s ← parse_uint 16 64 state
  i ← parse_uint 10 64 inode
  require (p == 0)
  some (
    i,
    record { protocol = codes "unix"; path = trim_blanks rest; flags = f; kind = k; state = s },
  )
unix_row _ = none

-- A socket of the kernel has no inode.
abbrev pub add_unix : ℕ × Socket → List (ℕ × Socket) → Option (List (ℕ × Socket))
add_unix (inode, socket) done =
    if inode == 0
    then some done
    else if is_some (look_up ◌==◌ inode done)
    then none
    else some ((inode, socket) ∷ done)

-- The loop over the rows.
unfoldable pub unix_rows : List Bytes → List (ℕ × Socket) → Option (List (ℕ × Socket))
unfolding row_fields
unix_rows [] done = some done
unix_rows (line ∷ lines) done = do
  cut ← row_fields 7 line
  row ← unix_row cut
  now ← add_unix row done
  unix_rows lines now

-- The header of a table, with single blanks.
abbrev pub header_of : Bytes → Bytes
header_of line = join_with b' ' (fields line)

abbrev unix_table : List Bytes → Option (List (ℕ × Socket))
unix_table [] = none
unix_table (header ∷ rows) = do
  require (same_bytes (header_of header) (codes "Num RefCount Protocol Flags Type St Inode Path"))
  unix_rows rows []

-- parseConnectionUnix(data)
unfoldable pub parse_unix : Bytes → Option (List (ℕ × Socket))
unfolding table_lines unix_rows fields join_with
parse_unix content = table_lines content >>= unix_table
