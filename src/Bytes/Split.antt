-- ===== src/Bytes/Split.antt =====
-- Splitting a text at a byte and joining the items again.
use cross_session_codex.Common.{
  ℕ, ◌≡◌, ◌≢◌, refl, false, List, [], ◌∷◌, ◌++◌, ◌==◌, ==_iff, arith, Bytes, Bool-cases, inl, inr,
  All,
}
use cross_session_codex.Bytes.{has_byte, split_on, join_with, add_byte}
use cross_session_codex.Bytes.Cut.{has_byte-append}

add_byte-ne-nil : (b : ℕ) (fs : List Bytes) → add_byte b fs ≢ []
add_byte-ne-nil b [] h = cc
add_byte-ne-nil b (f ∷ fs) h = cc

pub split_on-ne-nil : (c : ℕ) (s : Bytes) → split_on c s ≢ []
unfolding split_on
split_on-ne-nil c [] h = cc
split_on-ne-nil c (b ∷ bs) h = elim (Bool-cases (b == c)) [
  | inl e ↦ let k : [] ∷ split_on c bs ≡ [] = rw e at h in cc
  | inr e ↦ add_byte-ne-nil b (split_on c bs) (rw e at h)
]

join_with-nil : (c : ℕ) (fs : List Bytes) → fs ≢ [] → join_with c ([] ∷ fs) ≡ c ∷ join_with c fs
unfolding join_with
join_with-nil c [] h = absurd (h refl)
join_with-nil c (f ∷ fs) h = refl

join_with-add_byte : (c b : ℕ) (fs : List Bytes) → join_with c (add_byte b fs) ≡ b ∷ join_with c fs
unfolding join_with
join_with-add_byte c b [] = refl
join_with-add_byte c b (f ∷ []) = refl
join_with-add_byte c b (f ∷ g ∷ fs) = refl

-- Joining what was split gives the text again.
pub join_with-split_on : (c : ℕ) (s : Bytes) → join_with c (split_on c s) ≡ s
unfolding split_on
join_with-split_on c [] = unfold join_with in refl
join_with-split_on c (b ∷ bs) = elim (Bool-cases (b == c)) [
  | inl e ↦ rw e (
      ground (
        arith,
        join_with-nil c (split_on c bs) (split_on-ne-nil c bs),
        join_with-split_on c bs,
        ==_iff b c,
      ))
  | inr e ↦ rw e (ground (arith, join_with-add_byte c b (split_on c bs), join_with-split_on c bs))
]

split_on-clean : (c : ℕ) (x : Bytes) → has_byte c x ≡ false → split_on c x ≡ x ∷ []
unfolding split_on
split_on-clean c [] h = refl
split_on-clean c (b ∷ bs) h =
    let e : (b == c) ≡ false = ground arith in
    let rest : split_on c bs ≡ bs ∷ [] = split_on-clean c bs (ground arith) in rw (e, rest) refl

split_on-append :
    (c : ℕ) (x y : Bytes) → has_byte c x ≡ false → split_on c (x ++ c ∷ y) ≡ x ∷ split_on c y
unfolding split_on
split_on-append c [] y h = ground arith
split_on-append c (b ∷ bs) y h =
    let e : (b == c) ≡ false = ground arith in
    let rest : split_on c (bs ++ c ∷ y) ≡ bs ∷ split_on c y =
      split_on-append c bs y (ground arith) in
    rw (e, rest) refl

-- Splitting what was joined gives the items again, where none of them has the separator.
pub split_on-join_with :
    (c : ℕ) (x : Bytes) (xs : List Bytes)
    → All (λ i. has_byte c i ≡ false) (x ∷ xs)
    → split_on c (join_with c (x ∷ xs)) ≡ x ∷ xs
unfolding join_with
split_on-join_with c x [] (h, _) = split_on-clean c x h
split_on-join_with c x (y ∷ ys) (h, t) =
    rw (split_on-append c x (join_with c (y ∷ ys)) h) (rw (split_on-join_with c y ys t) refl)

pub has_byte-join_with :
    (c d : ℕ) (xs : List Bytes)
    → (d == c) ≡ false
    → All (λ x. has_byte c x ≡ false) xs
    → has_byte c (join_with d xs) ≡ false
unfolding join_with
has_byte-join_with c d [] e h = refl
has_byte-join_with c d (x ∷ []) e (h, _) = h
has_byte-join_with c d (x ∷ y ∷ ys) e (h, k) =
    ground (
      arith,
      has_byte-append c x (d ∷ join_with d (y ∷ ys)),
      has_byte-join_with c d (y ∷ ys) e k,
      h,
    )

add_byte-clean :
    (c b : ℕ) (fs : List Bytes)
    → (b == c) ≡ false
    → All (λ x. has_byte c x ≡ false) fs
    → All (λ x. has_byte c x ≡ false) (add_byte b fs)
add_byte-clean c b [] e h = (ground arith, tt)
add_byte-clean c b (f ∷ fs) e (h, hs) = (ground arith, hs)

pub split_on-clean_items : (c : ℕ) (s : Bytes) → All (λ x. has_byte c x ≡ false) (split_on c s)
unfolding split_on
split_on-clean_items c [] = (refl, tt)
split_on-clean_items c (b ∷ bs) = elim (Bool-cases (b == c)) [
  | inl e ↦ rw e (refl, split_on-clean_items c bs)
  | inr e ↦ rw e (add_byte-clean c b (split_on c bs) e (split_on-clean_items c bs))
]

add_byte-append :
    (b : ℕ) (xs ys : List Bytes) → xs ≢ [] → add_byte b (xs ++ ys) ≡ add_byte b xs ++ ys
add_byte-append b [] ys h = absurd (h refl)
add_byte-append b (x ∷ xs) ys h = refl

pub split_on-append_any :
    (c : ℕ) (x y : Bytes) → split_on c (x ++ c ∷ y) ≡ split_on c x ++ split_on c y
unfolding split_on
split_on-append_any c [] y = ground arith
split_on-append_any c (b ∷ bs) y = elim (Bool-cases (b == c)) [
  | inl e ↦ rw e (rw (split_on-append_any c bs y) refl)
  | inr e ↦ rw e (
      rw (split_on-append_any c bs y)
        (add_byte-append b (split_on c bs) (split_on c y) (split_on-ne-nil c bs)))
]
