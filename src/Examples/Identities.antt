-- ===== src/Examples/Identities.antt =====
-- The theorem about the stat line of a process, applied to a name that imitates one.
use cross_session_codex.Common.{◌≡◌, refl, ◌∷◌, ◌++◌, codes}
use cross_session_codex.Bytes.{fields}
use cross_session_codex.Identity.{start_from, parse_start}
use cross_session_codex.Identity.Stat.{parse_start-append}

parse_start-append_example :
    parse_start (codes "41") (
      codes "41 "
      ++ b'('
        ∷ (codes "a) S (b" ++ b')' ∷ codes " S 1 2 3 4 5 6 7 8 9 10 11 12 13 14 15 16 17 18 777"))
    ≡ start_from (fields (codes " S 1 2 3 4 5 6 7 8 9 10 11 12 13 14 15 16 17 18 777"))
parse_start-append_example =
    parse_start-append (codes "41") (codes "41 ") (codes "a) S (b")
      (codes " S 1 2 3 4 5 6 7 8 9 10 11 12 13 14 15 16 17 18 777") refl refl refl refl
