-- ===== src/Release/Tag/Reading.antt =====
-- Every tag that `validTag` accepts is the text of a version.
use cross_session_codex.Common.{
  ℕ, ◌≡◌, ◌≢◌, refl, sym, ap, ◌∙◌, Bool, true, false, ◌&&◌, List, [], ◌∷◌, ◌++◌, Option, none, some,
  append-nil, ◌==◌, ==_iff, arith, Bytes, Bool-cases, inl, inr, ◌⊎◌, All, length,
}
use cross_session_codex.Bytes.{has_byte, split_on, join_with, cut_first}
use cross_session_codex.Bytes.Cut.{cut_first-some}
use cross_session_codex.Bytes.Split.{split_on-ne-nil, join_with-split_on}
use cross_session_codex.Release.Tag.{
  valid_tag, valid_identifiers, valid_identifier, valid_number, valid_core, check_core,
  check_version, each,
}
use cross_session_codex.Release.Tag.Grammar.{Version, IsVersion, AreIdentifiers, items, text_of}

each-All : (p : Bytes → Bool) (xs : List Bytes) → each p xs ≡ true → All (λ x. p x ≡ true) xs
each-All p [] h = tt
each-All p (x ∷ xs) h = (ground arith, each-All p xs (ground arith))

-- Reading the parts of a text that is accepted.

read_identifiers :
    (strict : Bool) (sign : ℕ) (s : Bytes)
    → valid_identifiers s strict ≡ true
    → (is : Bytes × List Bytes) × AreIdentifiers strict (some is)
      × (items sign (some is) ≡ sign ∷ s)
read_identifiers strict sign s h =
    read (split_on b'.' s) (split_on-ne-nil b'.' s) (join_with-split_on b'.' s) (each-All _ _ h)
  where
    read :
        (xs : List Bytes)
        → xs ≢ []
        → join_with b'.' xs ≡ s
        → All (λ i. valid_identifier strict i ≡ true) xs
        → (is : Bytes × List Bytes) × AreIdentifiers strict (some is)
          × (items sign (some is) ≡ sign ∷ s)
    read [] e j a = absurd (e refl)
    read (x ∷ xs) e j a = ((x, xs), a, ap (λ t. sign ∷ t) j)

abbrev Core : Bytes → Type 0
Core s =
    (major : Bytes) × (minor : Bytes) × (patch : Bytes) × All (λ n. valid_number n ≡ true)
      (major ∷ minor ∷ patch ∷ [])
    × (join_with b'.' (major ∷ minor ∷ patch ∷ []) ≡ s)

three :
    (s : Bytes) (xs : List Bytes)
    → (length xs == 3 && each valid_number xs) ≡ true
    → join_with b'.' xs ≡ s
    → Core s
three s (a ∷ b ∷ c ∷ []) h j = (a, b, c, each-All valid_number (a ∷ b ∷ c ∷ []) (ground arith), j)
three s [] h j = absurd cc
three s (a ∷ []) h j = absurd cc
three s (a ∷ b ∷ []) h j = absurd cc
three s (a ∷ b ∷ c ∷ d ∷ xs) h j = absurd (ground arith)

read-Core : (s : Bytes) → valid_core s ≡ true → Core s
read-Core s h = three s (split_on b'.' s) h (join_with-split_on b'.' s)

abbrev Front : Bytes → Type 0
Front s =
    (major : Bytes) × (minor : Bytes) × (patch : Bytes) × (pre : Option (Bytes × List Bytes)) × All
      (λ n. valid_number n ≡ true) (major ∷ minor ∷ patch ∷ [])
    × AreIdentifiers true pre
    × (join_with b'.' (major ∷ minor ∷ patch ∷ []) ++ items b'-' pre ≡ s)

read-Front : (s : Bytes) → check_core s (cut_first b'-' s) ≡ true → Front s
read-Front s h = read (cut_first b'-' s) (λ x y. cut_first-some b'-' s x y) h
  where
    read :
        (r : Option (Bytes × Bytes))
        → ((x y : Bytes) → r ≡ some (x, y) → (s ≡ x ++ b'-' ∷ y) × (has_byte b'-' x ≡ false))
        → check_core s r ≡ true
        → Front s
    read none f k = let (a, b, c, n, j) = read-Core s k in (a, b, c, none, n, tt, append-nil _ ∙ j)
    read (some (core, pre)) f k =
        let (a, b, c, n, j) = read-Core core (ground arith) in
        let (is, ok, t) = read_identifiers true b'-' pre (ground arith) in
        (a, b, c, some is, n, ok, ground (arith, j, t, f core pre refl))

abbrev Whole : Bytes → Type 0
Whole s = (v : Version) × IsVersion v × (text_of v ≡ b'v' ∷ s)

whole :
    (s : Bytes) (x : Bytes)
    → Front x
    → (build : Option (Bytes × List Bytes)) → AreIdentifiers false build
    → x ++ items b'+' build ≡ s
    → Whole s
whole s x (a, b, c, pre, n, ok, j) build k e = (
  record { major = a; minor = b; patch = c; pre = pre; build = build },
  record { numbers = n; pre_ok = ok; build_ok = k },
  ap (λ t. b'v' ∷ t) (ap (λ t. t ++ items b'+' build) j ∙ e),
)

read-Whole : (s : Bytes) → check_version s (cut_first b'+' s) ≡ true → Whole s
read-Whole s h = read (cut_first b'+' s) (λ x y. cut_first-some b'+' s x y) h
  where
    read :
        (r : Option (Bytes × Bytes))
        → ((x y : Bytes) → r ≡ some (x, y) → (s ≡ x ++ b'+' ∷ y) × (has_byte b'+' x ≡ false))
        → check_version s r ≡ true
        → Whole s
    read none f k = whole s s (read-Front s k) none tt (append-nil s)
    read (some (x, y)) f k =
        let (is, ok, t) = read_identifiers false b'+' y (ground arith) in
        whole s x (read-Front x (ground arith)) (some is) ok
          (ap (λ t. x ++ t) t ∙ sym ((f x y refl).0))

-- A tag that validTag accepts is the text of a version.
pub valid_tag-IsVersion :
    (tag : Bytes) → valid_tag tag ≡ true → (v : Version) × IsVersion v × (text_of v ≡ tag)
unfolding valid_tag
valid_tag-IsVersion [] h = absurd cc
valid_tag-IsVersion (b ∷ bs) h = read (Bool-cases (b'v' == b))
  where
    read :
        ((b'v' == b) ≡ true) ⊎ ((b'v' == b) ≡ false)
        → (v : Version) × IsVersion v × (text_of v ≡ b ∷ bs)
    read (inl e) =
        let (v, ok, t) = read-Whole bs (rw (e, valid_tag) at h) in
        (v, ok, t ∙ ap (λ c. c ∷ bs) ((==_iff b'v' b).0 e))
    read (inr e) = let k : false ≡ true = rw (e, valid_tag) at h in absurd cc
