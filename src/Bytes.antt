-- ===== src/Bytes.antt =====
-- Texts as lists of bytes, and the functions of `strings` and `bytes` that the program calls on them.
pub mod Cut
pub mod Split
use cross_session_codex.Common.{
  ℕ, zero, suc, ◌+◌, ◌-◌, ◌*◌, ◌^◌, Bool, true, false, not, ◌&&◌, ◌||◌, List, [], ◌∷◌, ◌++◌, Option,
  none, some, ltb, leb, ◌==◌, if◌then◌else◌, length, get_elem?, Bytes, codes,
}

abbrev pub same_bytes : Bytes → Bytes → Bool
same_bytes [] [] = true
same_bytes (a ∷ rest) (b ∷ bs) = a == b && same_bytes rest bs
same_bytes _ _ = false

abbrev pub is_digit : ℕ → Bool
is_digit b = leb b'0' b && leb b b'9'

abbrev pub all_bytes : (ℕ → Bool) → Bytes → Bool
all_bytes p [] = true
all_bytes p (b ∷ bs) = p b && all_bytes p bs

-- ^(0|[1-9][0-9]*)$
abbrev pub is_canonical : Bytes → Bool
is_canonical [] = false
is_canonical (b ∷ []) = is_digit b
is_canonical (b ∷ c ∷ bs) = is_digit b && not (b == b'0') && all_bytes is_digit (c ∷ bs)

-- The value of a numeral, from the left.
abbrev pub value_from : ℕ → Bytes → ℕ
value_from n [] = n
value_from n (b ∷ bs) = value_from (10 * n + (b - b'0')) bs

-- White space of strings.Fields and strings.TrimSpace, among the bytes of ASCII.
abbrev pub is_white : ℕ → Bool
is_white b = b == b' ' || leb 9 b && leb b 13

unfoldable pub cut_first : ℕ → Bytes → Option (Bytes × Bytes)
cut_first c [] = none
cut_first c (b ∷ bs) =
    let rest = cut_first c bs in
    if b == c then some ([], bs) else elim rest [ none ↦ none | some (x, y) ↦ some (b ∷ x, y) ]

-- The parts around the last byte c.
unfoldable pub cut_last : ℕ → Bytes → Option (Bytes × Bytes)
cut_last c [] = none
cut_last c (b ∷ bs) = elim (cut_last c bs) [
  | some (x, y) ↦ some (b ∷ x, y)
  | none ↦ if b == c then some ([], bs) else none
]

abbrev pub trim_front : Bytes → Bytes
trim_front [] = []
trim_front (b ∷ bs) = let rest = trim_front bs in if is_white b then rest else b ∷ bs

abbrev keep_back : ℕ → Bytes → Bytes
keep_back b [] = if is_white b then [] else b ∷ []
keep_back b (c ∷ cs) = b ∷ c ∷ cs

abbrev trim_back : Bytes → Bytes
trim_back [] = []
trim_back (b ∷ bs) = keep_back b (trim_back bs)

-- strings.TrimSpace
abbrev pub trim : Bytes → Bytes
trim s = trim_back (trim_front s)

abbrev pub add_byte : ℕ → List Bytes → List Bytes
add_byte b [] = (b ∷ []) ∷ []
add_byte b (f ∷ fs) = (b ∷ f) ∷ fs

-- Whether the text goes on with the field that the byte before belongs to.
abbrev goes_on : Bytes → Bool
goes_on [] = false
goes_on (b ∷ bs) = not (is_white b)

-- strings.Fields
unfoldable pub fields : Bytes → List Bytes
fields [] = []
fields (b ∷ bs) =
    let rest = fields bs in
    if is_white b then rest else if goes_on bs then add_byte b rest else (b ∷ []) ∷ rest

abbrev pub has_byte : ℕ → Bytes → Bool
has_byte b [] = false
has_byte b (c ∷ cs) = c == b || has_byte b cs

abbrev pub is_nothing : Bytes → Bool
is_nothing [] = true
is_nothing _ = false

abbrev pub is_hex : ℕ → Bool
is_hex b = is_digit b || leb b'a' b && leb b b'f'

abbrev pub strip_prefix : Bytes → Bytes → Option Bytes
strip_prefix [] s = some s
strip_prefix (p ∷ ps) [] = none
strip_prefix (p ∷ ps) (b ∷ bs) = let rest = strip_prefix ps bs in if p == b then rest else none

abbrev pub is_positive_numeral : Bytes → Bool
is_positive_numeral [] = false
is_positive_numeral (b ∷ bs) = not (b == b'0') && all_bytes is_digit (b ∷ bs)

-- strings.Split(s, c), for a separator of one byte
unfoldable pub split_on : ℕ → Bytes → List Bytes
split_on c [] = [] ∷ []
split_on c (b ∷ bs) = let rest = split_on c bs in if b == c then [] ∷ rest else add_byte b rest

-- strings.Join(items, c)
unfoldable pub join_with : ℕ → List Bytes → Bytes
join_with c [] = []
join_with c (x ∷ []) = x
join_with c (x ∷ y ∷ ys) = x ++ c ∷ join_with c (y ∷ ys)
