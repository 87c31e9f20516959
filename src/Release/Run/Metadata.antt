-- ===== src/Release/Run/Metadata.antt =====
-- The output of a run is not in the metadata of Git.
use cross_session_codex.Common.{
  ◌≡◌, refl, subst, Bool, true, false, not, ◌&&◌, List, [], ◌∷◌, ◌++◌, append-nil, some, ◌==◌,
  ==_iff, arith, Bytes, All, codes,
}
use cross_session_codex.Bytes.{join_with}
use cross_session_codex.Bytes.Cut.{same_bytes_refl}
use cross_session_codex.Release.Outside.{World, Outside, require, pure, text, resolve, ◌>>◌}
use cross_session_codex.Path.{
  rel, elements, is_abs, stays_below, after_common, put_together, join, dir,
}
use cross_session_codex.Path.Cleaning.{IsPlain, elements-IsPlain}
use cross_session_codex.Release.Checks.{
  outside_all, safe_output, safe_output_within, rounds_for, existing, metadata_dir,
}
use cross_session_codex.Release.Run.Published.{both_returned, required}

-- The path is the directory or stands below it.
abbrev pub IsWithin : Bytes → Bytes → Type 0
IsWithin directory path = (es : List Bytes) × (elements path ≡ elements directory ++ es)

after_common-append : (ds es : List Bytes) → after_common ds (ds ++ es) ≡ ([], es)
after_common-append [] es = refl
after_common-append (d ∷ ds) es = rw (same_bytes_refl d) (after_common-append ds es)

-- The text of a plain element does not start by climbing, where nothing or a slash follows it.
abbrev is_end : Bytes → Bool
is_end [] = true
is_end (b ∷ bs) = b == b'/'

plain-stays_below :
    (x rest : Bytes) → IsPlain x → is_end rest ≡ true → stays_below (x ++ rest) ≡ true
plain-stays_below [] rest ok h = let k = ok.not_empty in absurd cc
plain-stays_below (a ∷ []) [] ok h = ground (arith, ok.not_dot)
plain-stays_below (a ∷ []) (r ∷ rs) ok h =
    ground (arith, ==_iff r b'/', ==_iff b'.' r, ==_iff r b'.')
plain-stays_below (a ∷ b ∷ []) [] ok h = ground (arith, ok.not_dot_dot)
plain-stays_below (a ∷ b ∷ []) (r ∷ rs) ok h =
    ground (arith, ok.not_dot_dot, ==_iff a b'.', ==_iff b'.' a, ==_iff b b'.', ==_iff b'.' b)
plain-stays_below (a ∷ b ∷ c ∷ cs) rest ok h =
    ground (arith, ok.no_slash, ==_iff c b'/', ==_iff b'/' c)

plain_text-stays_below :
    (es : List Bytes) → All IsPlain es → stays_below (put_together false es) ≡ true
unfolding join_with
plain_text-stays_below [] h = refl
plain_text-stays_below (x ∷ []) (h, _) =
    subst (λ (t : Bytes). stays_below t ≡ true) (append-nil x) (plain-stays_below x [] h refl)
plain_text-stays_below (x ∷ y ∷ ys) (h, _) =
    plain-stays_below x (b'/' ∷ join_with b'/' (y ∷ ys)) h refl

All-end : (P : Bytes → Type 0) (xs ys : List Bytes) → All P (xs ++ ys) → All P ys
All-end P [] ys h = h
All-end P (x ∷ xs) ys (_, h) = All-end P xs ys h

within-stays_below : (d o : Bytes) → is_abs o ≡ true → IsWithin d o → stays_below (rel d o) ≡ true
within-stays_below d o a (es, e) =
    let plain : All IsPlain (elements d ++ es) = subst (All IsPlain) e (elements-IsPlain o a) in
    rw e (
      rw (after_common-append (elements d) es)
        (plain_text-stays_below es (All-end IsPlain (elements d) es plain)))

outside-not_within :
    (d o : Bytes) → is_abs o ≡ true → stays_below (rel d o) ≡ false → IsWithin d o → ⊥
outside-not_within d o a h k = let e = within-stays_below d o a k in cc

-- The output is outside of the three directories of Git's metadata.
pub record IsClear (outside : Outside) (root o : Bytes) : Type 0 where
  pub own : Bytes
  pub common : Bytes
  pub then_own : World
  pub then_common : World
  pub own_lem : (metadata_dir root "--absolute-git-dir" outside then_own).0 ≡ some own
  pub common_lem : (metadata_dir root "--git-common-dir" outside then_common).0 ≡ some common
  pub not_in_dot_git : ¬ IsWithin (join root (codes ".git")) o
  pub not_in_own : ¬ IsWithin own o
  pub not_in_common : ¬ IsWithin common o

not-true : (b c : Bool) → (not b && c) ≡ true → (b ≡ false) × (c ≡ true)
not-true true c h = absurd cc
not-true false c h = (refl, h)

outside_all-All :
    (o : Bytes) (ds : List Bytes)
    → outside_all o ds ≡ true
    → All (λ d. stays_below (rel d o) ≡ false) ds
outside_all-All o [] h = tt
outside_all-All o (d ∷ ds) h =
    let (now, later) = not-true (stays_below (rel d o)) (outside_all o ds) h in
    (now, outside_all-All o ds later)

accepted :
    (given o : Bytes) (ds : List Bytes) (outside : Outside) (w : World)
    → ((require (outside_all given ds) >> pure given) outside w).0 ≡ some o
    → outside_all o ds ≡ true
unfolding pure
accepted given o ds outside w h =
    let (u, e, k) =
      both_returned (require (outside_all given ds)) (λ _. pure given) outside w o h in
    let same : given ≡ o = cc in
    subst (λ (x : Bytes). outside_all x ds ≡ true) same (required _ outside w u e)

-- If safeOutput accepts an absolute path, whatever the system answers, that path is not within .git of
-- the root, nor within the directories that Git named as its own and as the common one.
pub safe_output-IsClear :
    (outside : Outside) (w : World) (root output o : Bytes)
    → (safe_output root output outside w).0 ≡ some o
    → is_abs o ≡ true
    → IsClear outside root o
unfolding safe_output safe_output_within
safe_output-IsClear outside w root output o h a =
    let (found, e1, h1) =
      both_returned (existing (rounds_for output) (dir output) []) _ outside w o h in
    let w1 : World = (existing (rounds_for output) (dir output) [] outside w).1 in
    let (parent, e2, h2) = both_returned (text (resolve found.0)) _ outside w1 o h1 in
    let w2 : World = (text (resolve found.0) outside w1).1 in
    let (own, e3, h3) = both_returned (metadata_dir root "--absolute-git-dir") _ outside w2 o h2 in
    let w3 : World = (metadata_dir root "--absolute-git-dir" outside w2).1 in
    let (common, e4, h4) = both_returned (metadata_dir root "--git-common-dir") _ outside w3 o h3 in
    let w4 : World = (metadata_dir root "--git-common-dir" outside w3).1 in
    let ds : List Bytes = join root (codes ".git") ∷ own ∷ common ∷ [] in
    let (first, (second, (third, _))) = outside_all-All o ds (accepted _ o ds outside w4 h4) in
    record {
      own = own;
      common = common;
      then_own = w2;
      then_common = w3;
      own_lem = e3;
      common_lem = e4;
      not_in_dot_git = outside-not_within (join root (codes ".git")) o a first;
      not_in_own = outside-not_within own o a second;
      not_in_common = outside-not_within common o a third;
    }
