-- ===== src/Release/Tag.antt =====
-- Version tags: `validTag` and `validIdentifiers` of internal/release/release.go.
pub mod Grammar
pub mod Reading
pub mod Writing
use cross_session_codex.Common.{
  ℕ, zero, suc, Bool, true, false, not, ◌&&◌, ◌||◌, List, [], ◌∷◌, ◌++◌, Option, none, some, ltb,
  leb, ◌==◌, if◌then◌else◌, length, Bytes, codes,
}
use cross_session_codex.Bytes.{is_digit, all_bytes, cut_first, split_on, is_nothing, strip_prefix}

-- char is one of the characters of an identifier.
abbrev pub is_identifier_byte : ℕ → Bool
is_identifier_byte b =
    is_digit b || leb b'a' b && leb b b'z' || leb b'A' b && leb b b'Z' || b == b'-'

-- len(s) > 1 && s[0] == '0'
abbrev pub has_leading_zero : Bytes → Bool
has_leading_zero (b ∷ c ∷ bs) = b == b'0'
has_leading_zero _ = false

abbrev pub valid_identifier : Bool → Bytes → Bool
valid_identifier strict identifier =
    not (is_nothing identifier)
    && all_bytes is_identifier_byte identifier
    && not (strict && all_bytes is_digit identifier && has_leading_zero identifier)

abbrev pub each : (Bytes → Bool) → List Bytes → Bool
each p [] = true
each p (x ∷ xs) = p x && each p xs

abbrev pub valid_identifiers : Bytes → Bool → Bool
valid_identifiers value strict = each (valid_identifier strict) (split_on b'.' value)

abbrev pub valid_number : Bytes → Bool
valid_number number =
    not (is_nothing number || has_leading_zero number) && all_bytes is_digit number

abbrev pub valid_core : Bytes → Bool
valid_core core =
    let numbers = split_on b'.' core in length numbers == 3 && each valid_number numbers

-- The rest of the check, after the first cut at the sign of the prerelease.
abbrev pub check_core : Bytes → Option (Bytes × Bytes) → Bool
check_core core_and_pre none = valid_core core_and_pre
check_core core_and_pre (some (core, pre)) = valid_identifiers pre true && valid_core core

-- The rest of the check, after the first cut at the sign of the build.
abbrev pub check_version : Bytes → Option (Bytes × Bytes) → Bool
check_version version none = check_core version (cut_first b'-' version)
check_version version (some (core_and_pre, build)) =
    valid_identifiers build false && check_core core_and_pre (cut_first b'-' core_and_pre)

unfoldable pub valid_tag : Bytes → Bool
valid_tag tag = elim (strip_prefix (b'v' ∷ []) tag) [
  | none ↦ false
  | some version ↦ check_version version (cut_first b'+' version)
]
