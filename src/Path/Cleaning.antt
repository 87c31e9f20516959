-- ===== src/Path/Cleaning.antt =====
-- What Clean leaves of a path.
use cross_session_codex.Common.{
  ◌≡◌, refl, sym, ap, ◌∙◌, Bool, true, false, ◌||◌, List, [], ◌∷◌, ◌++◌, append-nil, append_assoc,
  arith, Bytes, Bool-cases, inl, inr, All,
}
use cross_session_codex.Bytes.{same_bytes, has_byte, is_nothing, split_on}
use cross_session_codex.Bytes.Split.{split_on-clean_items}
use cross_session_codex.Path.{dot, dot_dot, push, push_all, turn, is_abs, elements}

-- An element that names a file or a directory of its own.
pub record IsPlain (e : Bytes) : Type 0 where
  pub not_empty : is_nothing e ≡ false
  pub not_dot : same_bytes e dot ≡ false
  pub not_dot_dot : same_bytes e dot_dot ≡ false
  pub no_slash : has_byte b'/' e ≡ false

pub turn-turn : (xs ys zs : List Bytes) → turn (turn xs ys) zs ≡ turn ys (xs ++ zs)
turn-turn [] ys zs = refl
turn-turn (x ∷ xs) ys zs = turn-turn xs (x ∷ ys) zs

pub turn-append : (xs ys : List Bytes) → turn xs ys ≡ turn xs [] ++ ys
turn-append [] ys = refl
turn-append (x ∷ xs) ys =
    turn-append xs (x ∷ ys)
    ∙ (sym (append_assoc (turn xs []) (x ∷ []) ys)
        ∙ ap (λ t. t ++ ys) (sym (turn-append xs (x ∷ []))))

module _ (P : Bytes → Type 0) where
  pub turn-All : (xs ys : List Bytes) → All P xs → All P ys → All P (turn xs ys)
  turn-All [] ys h k = k
  turn-All (x ∷ xs) ys (h, hs) k = turn-All xs (x ∷ ys) hs (h, k)

push-plain :
    (rooted : Bool) (kept : List Bytes) (e : Bytes) → IsPlain e → push rooted kept e ≡ e ∷ kept
push-plain rooted [] e ok = ground (arith, ok.not_empty, ok.not_dot, ok.not_dot_dot)
push-plain rooted (t ∷ kept) e ok = ground (arith, ok.not_empty, ok.not_dot, ok.not_dot_dot)

pub push_all-plain :
    (rooted : Bool) (kept es : List Bytes) → All IsPlain es → push_all rooted kept es ≡ turn es kept
push_all-plain rooted kept [] h = refl
push_all-plain rooted kept (e ∷ es) (h, hs) =
    rw (push-plain rooted kept e h) (push_all-plain rooted (e ∷ kept) es hs)

pub push_all-append :
    (rooted : Bool) (kept xs ys : List Bytes)
    → push_all rooted kept (xs ++ ys) ≡ push_all rooted (push_all rooted kept xs) ys
push_all-append rooted kept [] ys = refl
push_all-append rooted kept (x ∷ xs) ys = push_all-append rooted (push rooted kept x) xs ys

-- Plain elements below a path stay what they are.
pub elements-plain :
    (d : Bytes) (es : List Bytes)
    → All IsPlain es
    → turn (push_all (is_abs d) [] (split_on b'/' d ++ es)) [] ≡ elements d ++ es
elements-plain d es h =
    let kept = push_all (is_abs d) [] (split_on b'/' d) in
    rw (push_all-append (is_abs d) [] (split_on b'/' d) es) (
      rw (push_all-plain (is_abs d) kept es h)
        (turn-turn es kept [] ∙ rw (append-nil es) (turn-append kept es)))

-- A rooted path climbs nowhere.
push-rooted :
    (kept : List Bytes) (e : Bytes)
    → has_byte b'/' e ≡ false
    → All IsPlain kept
    → All IsPlain (push true kept e)
push-rooted [] e c h = elim (Bool-cases (is_nothing e || same_bytes e dot)) [
  | inl p ↦ rw p tt
  | inr p ↦ elim (Bool-cases (same_bytes e dot_dot)) [
    | inl q ↦ rw (p, q) tt
    | inr q ↦
        rw (p, q)
          (
            record {
              not_empty = ground arith;
              not_dot = ground arith;
              not_dot_dot = q;
              no_slash = c;
            },
            tt,
          )
  ]
]
push-rooted (t ∷ kept) e c (h, hs) = elim (Bool-cases (is_nothing e || same_bytes e dot)) [
  | inl p ↦ rw p (h, hs)
  | inr p ↦ elim (Bool-cases (same_bytes e dot_dot)) [
    | inl q ↦ rw (p, q, h.not_dot_dot) hs
    | inr q ↦
        rw (p, q)
          (
            record {
              not_empty = ground arith;
              not_dot = ground arith;
              not_dot_dot = q;
              no_slash = c;
            },
            (h, hs),
          )
  ]
]

push_all-rooted :
    (kept es : List Bytes)
    → All (λ e. has_byte b'/' e ≡ false) es
    → All IsPlain kept
    → All IsPlain (push_all true kept es)
push_all-rooted kept [] c h = h
push_all-rooted kept (e ∷ es) (c, cs) h =
    push_all-rooted (push true kept e) es cs (push-rooted kept e c h)

pub elements-IsPlain : (d : Bytes) → is_abs d ≡ true → All IsPlain (elements d)
elements-IsPlain d h = rw h (
    turn-All IsPlain (push_all true [] (split_on b'/' d)) []
      (push_all-rooted [] (split_on b'/' d) (split_on-clean_items b'/' d) tt) tt)
