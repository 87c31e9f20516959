-- ===== src/Path/Below.antt =====
-- Paths below a directory: names that Clean leaves alone, and what Join and Dir make of them.
use cross_session_codex.Common.{
  ℕ, ◌≡◌, refl, sym, ap, ◌∙◌, true, false, ◌||◌, List, [], ◌∷◌, ◌++◌, append-nil, append_assoc,
  arith, Bytes, Bool-cases, inl, inr, All, All-map,
}
use cross_session_codex.Bytes.{same_bytes, has_byte, is_nothing, split_on, join_with}
use cross_session_codex.Bytes.Cut.{same_bytes_eq, cut_last-append}
use cross_session_codex.Bytes.Split.{split_on-join_with, split_on-clean_items, split_on-append_any}
use cross_session_codex.Path.{
  dot, dot_dot, push, push_all, turn, is_abs, elements, put_together, clean, join, dir, stays_below,
}
use cross_session_codex.Path.Cleaning.{
  IsPlain, turn-All, turn-turn, push_all-append, elements-plain, push_all-plain,
}

-- What a relative path keeps: plain elements, or some that stand on a climbing one.
data Kept (kept : List Bytes) : Type 0 where
  plain : All IsPlain kept → Kept kept
  climbing : (front : List Bytes) → kept ≡ front ++ dot_dot ∷ [] → Kept kept

popped :
    (t : Bytes) (kept : List Bytes) → same_bytes t dot_dot ≡ false → Kept (t ∷ kept) → Kept kept
popped t kept n (plain (h, hs)) = plain hs
popped t kept n (climbing [] p) =
    let e : t ≡ dot_dot = cc in let k : same_bytes dot_dot dot_dot ≡ false = rw e at n in cc
popped t kept n (climbing (f ∷ front) p) = climbing front (cc)

-- A climbing element stays only on a climbing one.
stacked :
    (t e : Bytes) (kept : List Bytes)
    → same_bytes t dot_dot ≡ true
    → Kept (t ∷ kept)
    → Kept (e ∷ t ∷ kept)
stacked t e kept y (plain (h, hs)) = let k = h.not_dot_dot in absurd (ground arith)
stacked t e kept y (climbing front p) = climbing (e ∷ front) (ap (λ l. e ∷ l) p)

added : (kept : List Bytes) (e : Bytes) → IsPlain e → Kept kept → Kept (e ∷ kept)
added kept e ok (plain h) = plain (ok, h)
added kept e ok (climbing front p) = climbing (e ∷ front) (ap (λ l. e ∷ l) p)

push-Kept :
    (kept : List Bytes) (e : Bytes) → has_byte b'/' e ≡ false → Kept kept → Kept (push false kept e)
push-Kept [] e c h = elim (Bool-cases (is_nothing e || same_bytes e dot)) [
  | inl p ↦ rw p h
  | inr p ↦ elim (Bool-cases (same_bytes e dot_dot)) [
    | inl q ↦ rw (p, q) (climbing [] (ap (λ t. t ∷ []) (same_bytes_eq e dot_dot q)))
    | inr q ↦
        rw (p, q)
          (added [] e
            (record {
              not_empty = ground arith;
              not_dot = ground arith;
              not_dot_dot = q;
              no_slash = c;
            })
            h)
  ]
]
push-Kept (t ∷ kept) e c h = elim (Bool-cases (is_nothing e || same_bytes e dot)) [
  | inl p ↦ rw p h
  | inr p ↦ elim (Bool-cases (same_bytes e dot_dot)) [
    | inl q ↦ elim (Bool-cases (same_bytes t dot_dot)) [
      | inl y ↦ rw (p, q, y) (stacked t e kept y h)
      | inr n ↦ rw (p, q, n) (popped t kept n h)
    ]
    | inr q ↦
        rw (p, q)
          (added (t ∷ kept) e
            (record {
              not_empty = ground arith;
              not_dot = ground arith;
              not_dot_dot = q;
              no_slash = c;
            })
            h)
  ]
]

push_all-Kept :
    (kept es : List Bytes)
    → All (λ e. has_byte b'/' e ≡ false) es
    → Kept kept
    → Kept (push_all false kept es)
push_all-Kept kept [] c h = h
push_all-Kept kept (e ∷ es) (c, cs) h =
    push_all-Kept (push false kept e) es cs (push-Kept kept e c h)

-- The text of a path that starts by climbing is refused.
starts-climbing : (es : List Bytes) → stays_below (join_with b'/' (dot_dot ∷ es)) ≡ false
unfolding join_with
starts-climbing [] = refl
starts-climbing (e ∷ es) = refl

turn-of_append : (xs ys zs : List Bytes) → turn (xs ++ ys) zs ≡ turn ys (turn xs zs)
turn-of_append [] ys zs = refl
turn-of_append (x ∷ xs) ys zs = turn-of_append xs ys (x ∷ zs)

front_last : (front : List Bytes) (x : Bytes) → turn (front ++ x ∷ []) [] ≡ x ∷ turn front []
front_last front x = turn-of_append front (x ∷ []) []

of-Kept :
    (name : Bytes) (kept : List Bytes)
    → Kept kept
    → put_together false (turn kept []) ≡ name
    → same_bytes name dot ≡ false
    → stays_below name ≡ true
    → All IsPlain (split_on b'/' name)
of-Kept name kept (climbing front p) e d s =
    let k : put_together false (dot_dot ∷ turn front []) ≡ name =
      rw (p, front_last front dot_dot) at e in
    let f : stays_below name ≡ false = rw (← k) (starts-climbing (turn front [])) in absurd cc
of-Kept name kept (plain h) e d s = all (turn kept []) (turn-All IsPlain kept [] h tt) e
  where
    all :
        (es : List Bytes)
        → All IsPlain es
        → put_together false es ≡ name
        → All IsPlain (split_on b'/' name)
    all [] h e = let k : same_bytes dot dot ≡ false = rw (← e) at d in absurd cc
    all (x ∷ xs) h e =
        rw (← e) (rw (split_on-join_with b'/' x xs (All-map (λ t k. k.no_slash) (x ∷ xs) h)) h)

-- A relative name that Clean leaves alone and that does not start by climbing has plain elements.
pub split_on-IsPlain :
    (name : Bytes)
    → is_abs name ≡ false
    → same_bytes (clean name) name ≡ true
    → same_bytes name dot ≡ false
    → stays_below name ≡ true
    → All IsPlain (split_on b'/' name)
unfolding clean
split_on-IsPlain name a c d s =
    of-Kept name (push_all false [] (split_on b'/' name))
      (push_all-Kept [] (split_on b'/' name) (split_on-clean_items b'/' name) (plain tt))
      (kept_text a c) d s
  where
    kept_text :
        is_abs name ≡ false
        → same_bytes (clean name) name ≡ true
        → put_together false (turn (push_all false [] (split_on b'/' name)) []) ≡ name
    kept_text a c =
        let k : clean name ≡ name = same_bytes_eq (clean name) name c in rw (clean, a) at k

-- A file below a directory.
pub record IsBelow (directory file : Bytes) : Type 0 where
  pub under : List Bytes
  pub plain_under : All IsPlain under
  pub text : file ≡ put_together true (elements directory ++ under)

pub join-IsBelow :
    (d name : Bytes)
    → is_abs d ≡ true
    → All IsPlain (split_on b'/' name)
    → join d name ≡ put_together true (elements d ++ split_on b'/' name)
unfolding clean
join-IsBelow [] name a h = absurd cc
join-IsBelow (b ∷ bs) name a h = rw a (
    ap (put_together true) (
      rw (split_on-append_any b'/' (b ∷ bs) name)
        (let k = elements-plain (b ∷ bs) (split_on b'/' name) h in rw a at k)))

push-empty : (kept : List Bytes) → push true kept [] ≡ kept
push-empty [] = refl
push-empty (t ∷ kept) = refl

join_with-last :
    (c : ℕ) (x : Bytes) (xs : List Bytes) (l : Bytes)
    → join_with c (x ∷ (xs ++ l ∷ [])) ≡ join_with c (x ∷ xs) ++ c ∷ l
unfolding join_with
join_with-last c x [] l = refl
join_with-last c x (y ∷ ys) l =
    rw (join_with-last c y ys l) (sym (append_assoc x (c ∷ join_with c (y ∷ ys)) (c ∷ l)))

-- The elements of a rooted path that ends in a slash.
elements-of_rooted :
    (x : Bytes) (xs : List Bytes)
    → All IsPlain (x ∷ xs)
    → turn (push_all true [] (split_on b'/' ((b'/' ∷ join_with b'/' (x ∷ xs)) ++ b'/' ∷ []))) []
      ≡ x ∷ xs
unfolding split_on
elements-of_rooted x xs h =
    let items : split_on b'/' ((b'/' ∷ join_with b'/' (x ∷ xs)) ++ b'/' ∷ [])
        ≡ ([] ∷ x ∷ xs) ++ [] ∷ [] =
      split_on-append_any b'/' (b'/' ∷ join_with b'/' (x ∷ xs)) []
      ∙ ap (λ t. t ++ split_on b'/' [])
          (split_on-append_any b'/' [] (join_with b'/' (x ∷ xs))
            ∙ ap (λ t. split_on b'/' [] ++ t)
                (split_on-join_with b'/' x xs (All-map (λ t k. k.no_slash) (x ∷ xs) h))) in
    rw items (
      rw (push_all-append true [] (x ∷ xs) ([] ∷ [])) (
        rw (push-empty (push_all true [] (x ∷ xs))) (
          rw (push_all-plain true [] (x ∷ xs) h) (turn-turn (x ∷ xs) [] [] ∙ append-nil (x ∷ xs)))))

dir_lem :
    (before last : Bytes)
    → has_byte b'/' last ≡ false
    → dir (before ++ b'/' ∷ last) ≡ clean (before ++ b'/' ∷ [])
dir_lem before last c = rw (dir, cut_last-append b'/' before last c) refl

-- The directory of a file is the path without its last element.
pub dir-put_together :
    (es : List Bytes) (l : Bytes)
    → All IsPlain es
    → has_byte b'/' l ≡ false
    → dir (put_together true (es ++ l ∷ [])) ≡ put_together true es
unfolding clean join_with split_on
dir-put_together [] l h c = dir_lem [] l c
dir-put_together (x ∷ xs) l h c =
    ap (λ t. dir (b'/' ∷ t)) (join_with-last b'/' x xs l)
    ∙ (dir_lem (b'/' ∷ join_with b'/' (x ∷ xs)) l c
        ∙ ap (put_together true) (elements-of_rooted x xs h))
