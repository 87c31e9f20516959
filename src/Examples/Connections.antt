-- ===== src/Examples/Connections.antt =====
-- The count of the app-server's connections, on a server with one other client and a TCP socket.
use cross_session_codex.Common.{
  ◌≡◌, ◌↔◌, refl, true, List, [], ◌∷◌, ◌++◌, some, ℕ, All, Bytes, codes,
}
use cross_session_codex.Bytes.{cut_first, fields, split_on, join_with}
use cross_session_codex.Json.{pos}
use cross_session_codex.Path.{clean}
use cross_session_codex.Procfs.{Socket, Read, holds, missing, parse_uint, is_int}
use cross_session_codex.Procfs.Tables.{table_lines, row_fields, unix_rows, parse_unix}
use cross_session_codex.Procfs.Protocols.{Protocol, tcp, valid_fields, other_rows, parse_other}
use cross_session_codex.Procfs.Sockets.{
  link_inode, Snapshot, stat_start, read_descriptors, snapshot_process, wanted_sockets,
  search_tables, Tables, read_sockets,
}
use cross_session_codex.Procfs.Inspection.{Inspection, count_sockets, linux_connections}
use cross_session_codex.Procfs.Classified.{IsClassified, read_sockets-AreClassified}
use cross_session_codex.Procfs.Counted.{IsVerified, linux_connections_iff}

abbrev line : List Bytes → Bytes
line [] = []
line (l ∷ ls) = l ++ 10 ∷ line ls

abbrev unix_text : Bytes
unix_text = line (
    codes "Num       RefCount Protocol Flags    Type St Inode Path"
    ∷ codes "0000: 00000002 00000000 00010000 0001 01 11 /s/a"
    ∷ codes "0000: 00000003 00000000 00000000 0001 03 12 /s/a"
    ∷ codes "0000: 00000003 00000000 00000000 0001 03 13 /s/a"
    ∷ codes "0000: 00000003 00000000 00000000 0001 03 0"
    ∷ [])

abbrev tcp_text : Bytes
tcp_text = line (
    codes
      "  sl  local_address rem_address   st tx_queue rx_queue tr tm->when retrnsmt   uid  timeout inode"
    ∷ codes
        "   0: 0100007F:1F90 00000000:0000 0A 00000000:00000000 00:00000000 00000000  1000        0 21 1 0"
    ∷ [])

abbrev other_text : Protocol → Read
other_text tcp = holds tcp_text
other_text _ = missing

abbrev here : Snapshot
here = record {
  stat = some (codes "7 (a) b) S 1 7 7 0 -1 0 0 0 0 0 0 0 0 0 20 0 1 0 500 0");
  link = some (codes "net:[4026531840]");
  entries = some (
      (codes "0", some (codes "/dev/null"))
      ∷ (codes "3", some (codes "socket:[11]"))
      ∷ (codes "4", some (codes "socket:[12]"))
      ∷ (codes "5", some (codes "socket:[13]"))
      ∷ (codes "6", some (codes "socket:[21]"))
      ∷ []);
}

abbrev tables : Tables
tables = record { unix = holds unix_text; other = other_text }

abbrev inspection : Inspection
inspection = record { before = here; first = tables; second = tables; after = here; in_time = true }

one_client : linux_connections (λ n. codes "7") (pos 7) (codes "/s/a") inspection ≡ some 1
unfolding linux_connections clean snapshot_process read_sockets count_sockets stat_start link_inode
    read_descriptors wanted_sockets parse_unix search_tables parse_other table_lines other_rows
    unix_rows valid_fields row_fields parse_uint is_int fields split_on join_with cut_first
one_client = refl

linux_connections_iff_example :
    (linux_connections (λ n. codes "7") (pos 7) (codes "/s/a") inspection ≡ some 1)
    ↔ IsVerified (λ n. codes "7") (pos 7) (codes "/s/a") inspection 1
linux_connections_iff_example =
    linux_connections_iff (λ n. codes "7") (pos 7) (codes "/s/a") inspection 1

abbrev descriptors : List (Bytes × Bytes)
descriptors = (codes "3", codes "socket:[11]") ∷ (codes "6", codes "socket:[21]") ∷ []

abbrev unix_socket : Socket
unix_socket = record {
  protocol = codes "unix";
  path = codes "/s/a";
  flags = 65536;
  kind = 1;
  state = 1;
}

abbrev tcp_socket : Socket
tcp_socket = record { protocol = codes "tcp"; path = []; flags = 0; kind = 0; state = 0 }

abbrev inventory : List (ℕ × Socket)
inventory = (21, tcp_socket) ∷ (11, unix_socket) ∷ []

found_both : read_sockets descriptors tables ≡ some inventory
unfolding read_sockets link_inode wanted_sockets parse_unix search_tables parse_other table_lines
    other_rows unix_rows valid_fields row_fields parse_uint is_int fields split_on join_with
    cut_first
found_both = refl

read_sockets-AreClassified_example : All (IsClassified inventory) descriptors
read_sockets-AreClassified_example =
    read_sockets-AreClassified descriptors tables inventory found_both
