-- ===== src/Release/Tag/Grammar.antt =====
-- The versions of semantic versioning, and how one is written as a tag.
use cross_session_codex.Common.{
  ℕ, ◌≡◌, Bool, true, false, List, [], ◌∷◌, ◌++◌, Option, none, some, Bytes, All,
}
use cross_session_codex.Bytes.{join_with}
use cross_session_codex.Release.Tag.{valid_number, valid_identifier}

pub record Version : Type 0 where
  pub major : Bytes
  pub minor : Bytes
  pub patch : Bytes
  -- The identifiers after the sign, the first one by itself.
  pub pre : Option (Bytes × List Bytes)
  pub build : Option (Bytes × List Bytes)

abbrev pub core_of : Version → Bytes
core_of v = join_with b'.' (v.major ∷ v.minor ∷ v.patch ∷ [])

abbrev pub items : ℕ → Option (Bytes × List Bytes) → Bytes
items sign none = []
items sign (some (x, xs)) = sign ∷ join_with b'.' (x ∷ xs)

-- v1.2.3-a.b+c.d
abbrev pub text_of : Version → Bytes
text_of v = b'v' ∷ ((core_of v ++ items b'-' v.pre) ++ items b'+' v.build)

abbrev pub AreIdentifiers : Bool → Option (Bytes × List Bytes) → Type 0
AreIdentifiers strict none = Unit
AreIdentifiers strict (some (x, xs)) = All (λ i. valid_identifier strict i ≡ true) (x ∷ xs)

abbrev pub AreNumbers : Version → Type 0
AreNumbers v = All (λ n. valid_number n ≡ true) (v.major ∷ v.minor ∷ v.patch ∷ [])

pub record IsVersion (v : Version) : Type 0 where
  pub numbers : AreNumbers v
  pub pre_ok : AreIdentifiers true v.pre
  pub build_ok : AreIdentifiers false v.build
