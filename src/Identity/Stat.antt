-- ===== src/Identity/Stat.antt =====
-- peer_identity_linux.go: `parseLinuxProcessStart` and the checks that use it.
use cross_session_codex.Common.{◌≡◌, refl, false, ◌∷◌, ◌++◌, Bytes}
use cross_session_codex.Bytes.{is_nothing, has_byte, trim, fields}
use cross_session_codex.Bytes.Cut.{cut_first-append, cut_last-append, same_bytes_refl}
use cross_session_codex.Identity.{start_from, parse_start}

-- The name of a program is whatever it likes to be, spaces, line ends and parentheses included: it
-- never moves the fields behind it, so that the start of a process is read from its own field.
pub parse_start-append :
    (pid front name tail : Bytes)
    → trim front ≡ pid
    → is_nothing front ≡ false
    → has_byte b'(' front ≡ false
    → has_byte b')' tail ≡ false
    → parse_start pid (front ++ b'(' ∷ (name ++ b')' ∷ tail)) ≡ start_from (fields tail)
unfolding parse_start
parse_start-append pid front name tail t n f l =
    rw (cut_first-append b'(' front (name ++ b')' ∷ tail) f)
      (rw n (rw t (rw (same_bytes_refl pid) (rw (cut_last-append b')' name tail l) refl))))
