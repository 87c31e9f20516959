-- ===== src/Names/Normal.antt =====
-- `normalizeName` of protocol.go: what every name that it returns looks like.
use Prim.Native.Char.{Char}
use cross_session_codex.Common.{
  ℕ, zero, suc, ◌+◌, ◌≤◌, ◌≡◌, refl, String, Bool, false, arith, ltb, inl, inr, Bool-cases,
}
use cross_session_codex.Names.{
  runes, take_runes, append, strip, trim_left, trim_right, keep_right, shorten, normalize_name,
}

runes-take : (n : ℕ) (s : String) → runes (take_runes n s) ≤ n
runes-take zero s = omega arith
runes-take (suc n) String.[] = omega arith
runes-take (suc n) (String.◌∷◌ c s) = omega (arith, runes-take n s)

runes-append : (s t : String) → runes (append s t) ≡ runes s + runes t
runes-append String.[] t = omega arith
runes-append (String.◌∷◌ c s) t = omega (arith, runes-append s t)

module _ (is_stripped is_space : Char → Bool) where
  -- Every character passes a test.
  abbrev Clean : String → Type 0
  Clean String.[] = Unit
  Clean (String.◌∷◌ c s) = (is_stripped c ≡ false) × Clean s

  abbrev NoLead : String → Type 0
  NoLead String.[] = Unit
  NoLead (String.◌∷◌ c s) = is_space c ≡ false

  strip-Clean : (s : String) → Clean (strip is_stripped is_space s)
  unfolding strip
  strip-Clean String.[] = tt
  strip-Clean (String.◌∷◌ c s) = elim (Bool-cases (is_stripped c)) [
    | inl e ↦ rw e (strip-Clean s)
    | inr e ↦ rw e (e, strip-Clean s)
  ]

  strip-Clean_id : (s : String) → Clean s → strip is_stripped is_space s ≡ s
  unfolding strip
  strip-Clean_id String.[] h = refl
  strip-Clean_id (String.◌∷◌ c s) (h, hs) = rw (h, strip-Clean_id s hs)

  trim_left-Clean : (s : String) → Clean s → Clean (trim_left is_stripped is_space s)
  unfolding trim_left
  trim_left-Clean String.[] h = tt
  trim_left-Clean (String.◌∷◌ c s) (h, hs) = elim (Bool-cases (is_space c)) [
    | inl e ↦ rw e (trim_left-Clean s hs)
    | inr e ↦ rw e (h, hs)
  ]

  trim_left-NoLead : (s : String) → NoLead (trim_left is_stripped is_space s)
  unfolding trim_left
  trim_left-NoLead String.[] = tt
  trim_left-NoLead (String.◌∷◌ c s) = elim (Bool-cases (is_space c)) [
    | inl e ↦ rw e (trim_left-NoLead s)
    | inr e ↦ rw e e
  ]

  trim_left_clean : (s : String) → NoLead s → trim_left is_stripped is_space s ≡ s
  unfolding trim_left
  trim_left_clean String.[] h = refl
  trim_left_clean (String.◌∷◌ c s) h = rw h

  keep_right-Clean :
      (c : Char) (s : String)
      → is_stripped c ≡ false
      → Clean s
      → Clean (keep_right is_stripped is_space c s)
  keep_right-Clean c String.[] h hs = elim (Bool-cases (is_space c)) [
    | inl e ↦ rw e tt
    | inr e ↦ rw e (h, tt)
  ]
  keep_right-Clean c (String.◌∷◌ d s) h hs = (h, hs)

  trim_right-Clean : (s : String) → Clean s → Clean (trim_right is_stripped is_space s)
  unfolding trim_right
  trim_right-Clean String.[] h = tt
  trim_right-Clean (String.◌∷◌ c s) (h, hs) = keep_right-Clean c _ h (trim_right-Clean s hs)

  keep_right-NoLead :
      (c : Char) (s : String) → is_space c ≡ false → NoLead (keep_right is_stripped is_space c s)
  keep_right-NoLead c String.[] h = rw h h
  keep_right-NoLead c (String.◌∷◌ d s) h = h

  trim_right-NoLead : (s : String) → NoLead s → NoLead (trim_right is_stripped is_space s)
  unfolding trim_right
  trim_right-NoLead String.[] h = tt
  trim_right-NoLead (String.◌∷◌ c s) h = keep_right-NoLead c _ h

  keep_right_idem :
      (c : Char) (s : String)
      → trim_right is_stripped is_space s ≡ s
      → trim_right is_stripped is_space (keep_right is_stripped is_space c s)
        ≡ keep_right is_stripped is_space c s
  unfolding trim_right
  keep_right_idem c String.[] h = elim (Bool-cases (is_space c)) [
    | inl e ↦ rw e
    | inr e ↦ rw e (rw e)
  ]
  keep_right_idem c (String.◌∷◌ d s) h = rw h

  trim_right_idem :
      (s : String)
      → trim_right is_stripped is_space (trim_right is_stripped is_space s)
        ≡ trim_right is_stripped is_space s
  unfolding trim_right
  trim_right_idem String.[] = refl
  trim_right_idem (String.◌∷◌ c s) = keep_right_idem c _ (trim_right_idem s)

  take-Clean : (n : ℕ) (s : String) → Clean s → Clean (take_runes n s)
  take-Clean zero s h = tt
  take-Clean (suc n) String.[] h = tt
  take-Clean (suc n) (String.◌∷◌ c s) (h, hs) = (h, take-Clean n s hs)

  append-Clean : (s t : String) → Clean s → Clean t → Clean (append s t)
  append-Clean String.[] t h k = k
  append-Clean (String.◌∷◌ c s) t (h, hs) k = (h, append-Clean s t hs k)

  append_take-NoLead :
      (n : ℕ) (s t : String) → NoLead s → NoLead t → NoLead (append (take_runes n s) t)
  append_take-NoLead zero s t h k = k
  append_take-NoLead (suc n) String.[] t h k = k
  append_take-NoLead (suc n) (String.◌∷◌ c s) t h k = h

  -- What is fixed by the three passes and short enough is a normal name.
  normalize_normal :
      (s : String)
      → Clean s
      → NoLead s
      → trim_right is_stripped is_space s ≡ s
      → runes s ≤ 64
      → normalize_name is_stripped is_space s ≡ s
  unfolding normalize_name
  normalize_normal s c l r short =
      let fits : ltb 64 (runes s) ≡ false = ground arith in
      rw (strip-Clean_id s c) (rw (trim_left_clean s l) (rw r (rw fits)))

  module _ (mark : is_stripped "…" ≡ false) (mark' : is_space "…" ≡ false) where
    keep_right-append :
        (c : Char) (s : String)
        → keep_right is_stripped is_space c (append s "…") ≡ String.◌∷◌ c (append s "…")
    keep_right-append c String.[] = refl
    keep_right-append c (String.◌∷◌ d s) = refl

    trim_right-append : (s : String) → trim_right is_stripped is_space (append s "…") ≡ append s "…"
    unfolding trim_right
    trim_right-append String.[] = rw mark'
    trim_right-append (String.◌∷◌ c s) = rw (trim_right-append s) (keep_right-append c s)

    shorten_normal :
        (s : String)
        → Clean s
        → NoLead s
        → trim_right is_stripped is_space s ≡ s
        → (runes (shorten is_stripped is_space s) ≤ 64)
          × (normalize_name is_stripped is_space (shorten is_stripped is_space s)
              ≡ shorten is_stripped is_space s)
    unfolding shorten
    shorten_normal s c l r = elim (Bool-cases (ltb 64 (runes s))) [
      | inl long ↦
          let size : runes (append (take_runes 63 s) "…") ≤ 64 =
            omega (arith, runes-append (take_runes 63 s) "…", runes-take 63 s) in
          rw long (
            size,
            normalize_normal _ (append-Clean (take_runes 63 s) "…" (take-Clean 63 s c) (mark, tt))
                (append_take-NoLead 63 s "…" l mark') (trim_right-append (take_runes 63 s)) size,
          )
      | inr short ↦
          let size : runes s ≤ 64 = ground arith in rw short (size, normalize_normal s c l r size)
    ]

-- If the ellipsis is neither stripped nor white space, a normalized name has at most 64 characters, and
-- normalizing it again changes nothing: two names
-- that are compared after normalization are compared by what is advertised.
pub normalize_name_idem :
    (is_stripped is_space : Char → Bool) (name : String)
    → is_stripped "…" ≡ false
    → is_space "…" ≡ false
    → (runes (normalize_name is_stripped is_space name) ≤ 64)
      × (normalize_name is_stripped is_space (normalize_name is_stripped is_space name)
          ≡ normalize_name is_stripped is_space name)
normalize_name_idem is_stripped is_space name m m' =
    let clean = strip-Clean is_stripped is_space name in
    let left = trim_left is_stripped is_space (strip is_stripped is_space name) in
    let lead = trim_left-NoLead is_stripped is_space (strip is_stripped is_space name) in
    unfold normalize_name in
    shorten_normal is_stripped is_space m m' (trim_right is_stripped is_space left)
      (trim_right-Clean is_stripped is_space left (trim_left-Clean is_stripped is_space _ clean))
      (trim_right-NoLead is_stripped is_space left lead) (trim_right_idem is_stripped is_space left)
