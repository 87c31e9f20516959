-- ===== src/Path/Rooted.antt =====
-- Absolute paths made of plain elements, and the directories that they stand in.
use cross_session_codex.Common.{
  ℕ, ◌≡◌, refl, ap, ◌∙◌, Bool, true, List, [], ◌∷◌, ◌++◌, Option, none, some, append-nil, ◌==◌,
  Bytes, All, All-map, if◌then◌else◌,
}
use cross_session_codex.Bytes.{split_on, join_with, cut_last}
use cross_session_codex.Bytes.Split.{split_on-append_any, split_on-join_with}
use cross_session_codex.Path.{dot, push_all, turn, is_abs, elements, put_together, clean, dir}
use cross_session_codex.Path.Cleaning.{IsPlain, turn-turn, push_all-plain, elements-IsPlain}

-- The elements of a path that is put together from plain ones.
pub elements-put_together :
    (es : List Bytes) → All IsPlain es → elements (put_together true es) ≡ es
unfolding split_on join_with
elements-put_together [] h = refl
elements-put_together (x ∷ xs) h =
    let items : split_on b'/' (b'/' ∷ join_with b'/' (x ∷ xs)) ≡ [] ∷ x ∷ xs =
      split_on-append_any b'/' [] (join_with b'/' (x ∷ xs))
      ∙ ap (λ t. split_on b'/' [] ++ t)
          (split_on-join_with b'/' x xs (All-map (λ t k. k.no_slash) (x ∷ xs) h)) in
    ap (λ t. turn (push_all true [] t) []) items
    ∙ (ap (λ t. turn t []) (push_all-plain true [] (x ∷ xs) h)
        ∙ (turn-turn (x ∷ xs) [] [] ∙ append-nil (x ∷ xs)))

-- An absolute path put together from plain elements.
pub record IsRooted (path : Bytes) : Type 0 where
  pub parts : List Bytes
  pub plain_parts : All IsPlain parts
  pub text : path ≡ put_together true parts

clean-IsRooted : (path : Bytes) → is_abs path ≡ true → IsRooted (clean path)
unfolding clean
clean-IsRooted path a = record {
  parts = elements path;
  plain_parts = elements-IsPlain path a;
  text = ap (λ (t : Bool). put_together t (elements path)) a;
}

abbrev dir_of : Option (Bytes × Bytes) → Bytes
dir_of none = dot
dir_of (some (before, last)) = clean (before ++ b'/' ∷ [])

abbrev cut_on : ℕ → Bytes → Option (Bytes × Bytes) → Option (Bytes × Bytes)
cut_on b bs none = if b == b'/' then some ([], bs) else none
cut_on b bs (some (x, y)) = some (b ∷ x, y)

dir_of-IsRooted :
    (b : ℕ) (bs : Bytes) (r : Option (Bytes × Bytes))
    → (b == b'/') ≡ true
    → IsRooted (dir_of (cut_on b bs r))
dir_of-IsRooted b bs none a = rw a (clean-IsRooted (b'/' ∷ []) refl)
dir_of-IsRooted b bs (some (x, y)) a = clean-IsRooted ((b ∷ x) ++ b'/' ∷ []) a

-- The directory of an absolute path is absolute and clean.
pub dir-IsRooted : (path : Bytes) → is_abs path ≡ true → IsRooted (dir path)
unfolding cut_last
dir-IsRooted [] a = absurd cc
dir-IsRooted (b ∷ bs) a = dir_of-IsRooted b bs (cut_last b'/' bs) a
