-- ===== src/Release/Tag/Writing.antt =====
-- `validTag` accepts exactly the texts of versions.
use cross_session_codex.Common.{
  subst, ◌↔◌, ℕ, ◌≡◌, refl, Bool, true, false, List, [], ◌∷◌, ◌++◌, Option, none, some, append-nil,
  ◌==◌, arith, Bytes, All, All-map,
}
use cross_session_codex.Bytes.{has_byte, is_digit, join_with, cut_first}
use cross_session_codex.Bytes.Cut.{
  has_byte-append, has_byte-all_bytes, cut_first-append, cut_first-clean,
}
use cross_session_codex.Bytes.Split.{split_on-join_with, has_byte-join_with}
use cross_session_codex.Release.Tag.Reading.{valid_tag-IsVersion}
use cross_session_codex.Release.Tag.{
  valid_tag, valid_identifiers, valid_identifier, valid_number, valid_core, check_core,
  check_version, each, is_identifier_byte,
}
use cross_session_codex.Release.Tag.Grammar.{
  Version, IsVersion, AreIdentifiers, AreNumbers, items, text_of, core_of,
}

All-each : (p : Bytes → Bool) (xs : List Bytes) → All (λ x. p x ≡ true) xs → each p xs ≡ true
All-each p [] h = refl
All-each p (x ∷ xs) (h, k) = ground (arith, h, All-each p xs k)

identifier-clean :
    (c : ℕ) (strict : Bool) (x : Bytes)
    → is_identifier_byte c ≡ false
    → valid_identifier strict x ≡ true
    → has_byte c x ≡ false
identifier-clean c strict x e h = has_byte-all_bytes c is_identifier_byte x e (ground arith)

number-clean :
    (c : ℕ) (x : Bytes) → is_digit c ≡ false → valid_number x ≡ true → has_byte c x ≡ false
number-clean c x e h = has_byte-all_bytes c is_digit x e (ground arith)

-- Checking the parts of a version.

items-accepted :
    (strict : Bool) (x : Bytes) (xs : List Bytes)
    → AreIdentifiers strict (some (x, xs))
    → valid_identifiers (join_with b'.' (x ∷ xs)) strict ≡ true
items-accepted strict x xs ok =
    let clean : All (λ i. has_byte b'.' i ≡ false) (x ∷ xs) =
      All-map (λ i h. identifier-clean b'.' strict i refl h) (x ∷ xs) ok in
    rw (split_on-join_with b'.' x xs clean) (All-each (valid_identifier strict) (x ∷ xs) ok)

core-clean :
    (v : Version) (c : ℕ)
    → is_digit c ≡ false
    → (b'.' == c) ≡ false
    → AreNumbers v
    → has_byte c (core_of v) ≡ false
core-clean v c e d n =
    has_byte-join_with c b'.' _ d
      (All-map (λ i h. number-clean c i e h) (v.major ∷ v.minor ∷ v.patch ∷ []) n)

core-accepted : (v : Version) → AreNumbers v → valid_core (core_of v) ≡ true
core-accepted v n =
    let numbers = v.major ∷ v.minor ∷ v.patch ∷ [] in
    let clean : All (λ i. has_byte b'.' i ≡ false) numbers =
      All-map (λ i h. number-clean b'.' i refl h) numbers n in
    rw (split_on-join_with b'.' v.major (v.minor ∷ v.patch ∷ []) clean)
      (All-each valid_number numbers n)

pre-clean :
    (pre : Option (Bytes × List Bytes))
    → AreIdentifiers true pre
    → has_byte b'+' (items b'-' pre) ≡ false
pre-clean none ok = refl
pre-clean (some (x, xs)) ok =
    has_byte-join_with b'+' b'.' (x ∷ xs) refl
      (All-map (λ i h. identifier-clean b'+' true i refl h) (x ∷ xs) ok)

abbrev front : Version → Bytes
front v = core_of v ++ items b'-' v.pre

front-accepted :
    (v : Version)
    → AreNumbers v
    → (pre : Option (Bytes × List Bytes)) → AreIdentifiers true pre
    → check_core (core_of v ++ items b'-' pre) (cut_first b'-' (core_of v ++ items b'-' pre)) ≡ true
front-accepted v n none ok =
    rw (append-nil (core_of v))
      (rw (cut_first-clean b'-' (core_of v) (core-clean v b'-' refl refl n)) (core-accepted v n))
front-accepted v n (some (x, xs)) ok =
    rw (cut_first-append b'-' (core_of v) (join_with b'.' (x ∷ xs)) (core-clean v b'-' refl refl n))
      (ground (arith, items-accepted true x xs ok, core-accepted v n))

front-clean : (v : Version) → IsVersion v → has_byte b'+' (front v) ≡ false
front-clean v ok = ground (
  arith,
  has_byte-append b'+' (core_of v) (items b'-' v.pre),
  core-clean v b'+' refl refl ok.numbers,
  pre-clean v.pre ok.pre_ok,
)

whole-accepted :
    (v : Version)
    → IsVersion v
    → (build : Option (Bytes × List Bytes)) → AreIdentifiers false build
    → check_version (front v ++ items b'+' build) (cut_first b'+' (front v ++ items b'+' build))
      ≡ true
whole-accepted v ok none k = rw (append-nil (front v)) (
    rw (cut_first-clean b'+' (front v) (front-clean v ok))
      (front-accepted v ok.numbers v.pre ok.pre_ok))
whole-accepted v ok (some (x, xs)) k =
    rw (cut_first-append b'+' (front v) (join_with b'.' (x ∷ xs)) (front-clean v ok))
      (ground (arith, items-accepted false x xs k, front-accepted v ok.numbers v.pre ok.pre_ok))

-- validTag accepts every version, written as a tag.
pub valid_tag-text_of : (v : Version) → IsVersion v → valid_tag (text_of v) ≡ true
unfolding valid_tag
valid_tag-text_of v ok = whole-accepted v ok v.build ok.build_ok

-- validTag accepts a tag exactly where it is the text of a version of the grammar.
pub valid_tag_iff :
    (tag : Bytes) → (valid_tag tag ≡ true) ↔ ((v : Version) × IsVersion v × (text_of v ≡ tag))
valid_tag_iff tag = (
  valid_tag-IsVersion tag,
  λ (v, ok, e). subst (λ (t : Bytes). valid_tag t ≡ true) e (valid_tag-text_of v ok),
)
