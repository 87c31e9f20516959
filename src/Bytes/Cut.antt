-- ===== src/Bytes/Cut.antt =====
-- The parts of a text around a byte: how cutting and putting together undo each other.
use cross_session_codex.Common.{
  ℕ, ◌≡◌, refl, Bool, true, false, ◌||◌, [], ◌∷◌, ◌++◌, Option, none, some, ◌==◌, ==_iff, arith,
  Bytes, Bool-cases, inl, inr,
}
use cross_session_codex.Bytes.{same_bytes, has_byte, all_bytes, cut_first, cut_last}

pub cut_first-append :
    (c : ℕ) (xs ys : Bytes) → has_byte c xs ≡ false → cut_first c (xs ++ c ∷ ys) ≡ some (xs, ys)
unfolding cut_first
cut_first-append c [] ys h = ground arith
cut_first-append c (x ∷ xs) ys h =
    let rest : cut_first c (xs ++ c ∷ ys) ≡ some (xs, ys) =
      cut_first-append c xs ys (ground arith) in
    let other : (x == c) ≡ false = ground arith in rw other (rw rest refl)

pub cut_last-none : (c : ℕ) (xs : Bytes) → has_byte c xs ≡ false → cut_last c xs ≡ none
unfolding cut_last
cut_last-none c [] h = refl
cut_last-none c (x ∷ xs) h =
    let rest : cut_last c xs ≡ none = cut_last-none c xs (ground arith) in
    let other : (x == c) ≡ false = ground arith in rw rest (rw other refl)

pub cut_last-append :
    (c : ℕ) (xs ys : Bytes) → has_byte c ys ≡ false → cut_last c (xs ++ c ∷ ys) ≡ some (xs, ys)
unfolding cut_last
cut_last-append c [] ys h = rw (cut_last-none c ys h) (ground arith)
cut_last-append c (x ∷ xs) ys h = rw (cut_last-append c xs ys h) refl

pub same_bytes_refl : (xs : Bytes) → same_bytes xs xs ≡ true
same_bytes_refl [] = refl
same_bytes_refl (x ∷ xs) = ground (arith, same_bytes_refl xs)

-- What was cut can be put together again, and the part in front has no such byte.
kept_some :
    (c b : ℕ) (bs x y : Bytes) (r : Option (Bytes × Bytes))
    → (b == c) ≡ false
    → ((x' y' : Bytes) → r ≡ some (x', y') → (bs ≡ x' ++ c ∷ y') × (has_byte c x' ≡ false))
    → ◌≡◌ {A = Option (Bytes × Bytes)}
        (elim r [ none ↦ none | some (x', y') ↦ some (b ∷ x', y') ])
        (some (x, y))
    → (b ∷ bs ≡ x ++ c ∷ y) × (has_byte c x ≡ false)
kept_some c b bs x y none e f h = absurd cc
kept_some c b bs x y (some (x', y')) e f h = ground (arith, h, f x' y' refl, e)

pub cut_first-some :
    (c : ℕ) (s x y : Bytes)
    → cut_first c s ≡ some (x, y)
    → (s ≡ x ++ c ∷ y) × (has_byte c x ≡ false)
unfolding cut_first
cut_first-some c [] x y h = absurd cc
cut_first-some c (b ∷ bs) x y h = elim (Bool-cases (b == c)) [
  | inl e ↦ let k : some ([], bs) ≡ some (x, y) = rw e at h in ground (arith, k, ==_iff b c)
  | inr e ↦
      kept_some c b bs x y (cut_first c bs) e (λ x' y' k. cut_first-some c bs x' y' k) (rw e at h)
]

pub cut_first-none : (c : ℕ) (s : Bytes) → cut_first c s ≡ none → has_byte c s ≡ false
unfolding cut_first
cut_first-none c [] h = refl
cut_first-none c (b ∷ bs) h = ground (arith, cut_first-none c bs)

pub has_byte-append :
    (c : ℕ) (xs ys : Bytes) → has_byte c (xs ++ ys) ≡ (has_byte c xs || has_byte c ys)
has_byte-append c [] ys = refl
has_byte-append c (x ∷ xs) ys = ground (arith, has_byte-append c xs ys)

-- A byte that a test turns down is in no text that passes it.
pub has_byte-all_bytes :
    (c : ℕ) (p : ℕ → Bool) (xs : Bytes)
    → p c ≡ false
    → all_bytes p xs ≡ true
    → has_byte c xs ≡ false
has_byte-all_bytes c p [] e h = refl
has_byte-all_bytes c p (x ∷ xs) e h = ground (arith, has_byte-all_bytes c p xs e, ==_iff x c)

pub same_bytes_eq : (xs ys : Bytes) → same_bytes xs ys ≡ true → xs ≡ ys
same_bytes_eq [] [] h = refl
same_bytes_eq [] (y ∷ ys) h = absurd cc
same_bytes_eq (x ∷ xs) [] h = absurd cc
same_bytes_eq (x ∷ xs) (y ∷ ys) h = ground (arith, h, same_bytes_eq xs ys, ==_iff x y)

pub cut_first-clean : (c : ℕ) (s : Bytes) → has_byte c s ≡ false → cut_first c s ≡ none
unfolding cut_first
cut_first-clean c [] h = refl
cut_first-clean c (b ∷ bs) h =
    let e : (b == c) ≡ false = ground arith in
    let rest : cut_first c bs ≡ none = cut_first-clean c bs (ground arith) in rw (e, rest) refl
