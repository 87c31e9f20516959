-- ===== src/Release/Run/Search.antt =====
-- The search of `safeOutput` for the nearest directory that exists comes to an end.
use cross_session_codex.Common.{
  ℕ, zero, suc, ◌+◌, ◌≤◌, ◌≡◌, ◌≢◌, refl, sym, subst, ap, ◌∙◌, true, List, [], ◌∷◌, ◌++◌, arith,
  Bytes, All, length, length-append,
}
use cross_session_codex.Bytes.{join_with}
use cross_session_codex.Path.{dir, base, is_abs, elements, put_together}
use cross_session_codex.Path.Cleaning.{IsPlain}
use cross_session_codex.Path.Below.{dir-put_together}
use cross_session_codex.Path.Rooted.{IsRooted, dir-IsRooted, elements-put_together}
use cross_session_codex.Release.Outside.{
  lstat, Reply, fails, absent, says, found, World, Outside, ask, continue, ◌>>=◌,
}
use cross_session_codex.Release.Checks.{
  existing, existing_reply, safe_output_within, safe_output, rounds_for, after_search,
}

-- A list of elements ends with a last one, or is empty.
data Ends : List Bytes → Type 0 where
  empty : Ends []
  last : (front : List Bytes) (l : Bytes) → Ends (front ++ l ∷ [])

ends_of : (es : List Bytes) → Ends es
ends_of [] = empty
ends_of (x ∷ xs) = add x xs (ends_of xs)
  where
    add : (x : Bytes) (xs : List Bytes) → Ends xs → Ends (x ∷ xs)
    add x xs empty = last [] x
    add x xs (last front l) = last (x ∷ front) l

All-split : (P : Bytes → Type 0) (xs ys : List Bytes) → All P (xs ++ ys) → All P xs × All P ys
All-split P [] ys h = (tt, h)
All-split P (x ∷ xs) ys (h, hs) = let (a, b) = All-split P xs ys hs in ((h, a), b)

module _ (outside : Outside)
    (root_is_there : (k : ℕ) → outside k (lstat (b'/' ∷ [])) ≢ absent) where
  abbrev SameSearch : ℕ → ℕ → Bytes → Type 0
  SameSearch n m parent =
      (missing : List Bytes) (w : World)
      → existing n parent missing outside w ≡ existing m parent missing outside w

  reply_same :
      (n m : ℕ) (parent : Bytes) (missing : List Bytes) (r : Reply) (w : World)
      → (r ≡ absent → SameSearch n m (dir parent))
      → existing_reply parent missing (existing n (dir parent) (base parent ∷ missing)) r outside w
        ≡ existing_reply parent missing
            (existing m (dir parent) (base parent ∷ missing))
            r
            outside
            w
  reply_same n m parent missing fails w h = refl
  reply_same n m parent missing absent w h = h refl (base parent ∷ missing) w
  reply_same n m parent missing (says t) w h = refl
  reply_same n m parent missing (found k) w h = refl

  round_same :
      (n m : ℕ) (parent : Bytes)
      → ((k : ℕ) → outside k (lstat parent) ≡ absent → SameSearch n m (dir parent))
      → SameSearch (suc n) (suc m) parent
  unfolding ask ◌>>=◌
  round_same n m parent h missing w =
      reply_same n m parent missing (outside w.clock (lstat parent)) _ (h w.clock)

  from_end :
      (n m : ℕ) (es : List Bytes)
      → Ends es
      → All IsPlain es
      → length es ≤ n
      → length es ≤ m
      → ((front : List Bytes)
          → All IsPlain front
          → length front + 1 ≤ n
          → length front + 1 ≤ m
          → SameSearch n m (put_together true front))
      → SameSearch (suc n) (suc m) (put_together true es)
  unfolding join_with
  from_end n m es empty h a b ih =
      round_same n m (put_together true []) (λ k e. absurd (root_is_there k e))
  from_end n m es (last front l) h a b ih =
      let (plain, plain_last) = All-split IsPlain front (l ∷ []) h in
      let up : dir (put_together true (front ++ l ∷ [])) ≡ put_together true front =
        dir-put_together front l plain (plain_last.0.no_slash) in
      let size : length (front ++ l ∷ []) ≡ length front + length (l ∷ []) =
        length-append front (l ∷ []) in
      round_same n m (put_together true (front ++ l ∷ []))
        (λ k e. subst (SameSearch n m) (sym up) (ih front plain (omega arith) (omega arith)))

  search_same :
      (n m : ℕ) (es : List Bytes)
      → All IsPlain es
      → length es ≤ n
      → length es ≤ m
      → SameSearch (suc n) (suc m) (put_together true es)
  search_same zero m es h a b =
      from_end zero m es (ends_of es) h a b (λ front p c d. absurd (omega arith))
  search_same (suc n) zero es h a b =
      from_end (suc n) zero es (ends_of es) h a b (λ front p c d. absurd (omega arith))
  search_same (suc n) (suc m) es h a b =
      from_end (suc n) (suc m) es (ends_of es) h a b
        (λ front p c d. search_same n m front p (omega arith) (omega arith))

-- Where the root of the file system is never reported as missing, the rounds of the search that
-- safeOutput makes for an absolute path are enough: with any number of rounds above them it calls the
-- same and answers the same.
pub safe_output-ends :
    (outside : Outside) (root output : Bytes) (rounds : ℕ) (w : World)
    → ((k : ℕ) → outside k (lstat (b'/' ∷ [])) ≢ absent)
    → is_abs output ≡ true
    → length (elements (dir output)) ≤ rounds
    → safe_output_within (suc rounds) root output outside w ≡ safe_output root output outside w
unfolding safe_output safe_output_within ◌>>=◌
safe_output-ends outside root output rounds w there a enough =
    let rooted : IsRooted (dir output) = dir-IsRooted output a in
    let es : List Bytes = rooted.parts in
    let size : length (elements (dir output)) ≡ length es =
      ap (λ (p : Bytes). length (elements p)) rooted.text
      ∙ ap length (elements-put_together es rooted.plain_parts) in
    let same : existing (suc rounds) (dir output) [] outside w
        ≡ existing (rounds_for output) (dir output) [] outside w =
      subst
        (λ (p : Bytes).
          existing (suc rounds) p [] outside w ≡ existing (rounds_for output) p [] outside w)
        (sym rooted.text)
        (search_same outside there rounds (length (elements (dir output))) es rooted.plain_parts
          (omega arith) (omega arith) [] w) in
    ap (λ r. continue r.0 (after_search root output) outside r.1) same
