-- ===== src/Path.antt =====
-- The functions of `path` and `path/filepath` that the program calls, on Unix.
pub mod Cleaning
pub mod Below
pub mod Rooted
use cross_session_codex.Common.{
  ℕ, Bool, true, false, not, ◌&&◌, ◌||◌, List, [], ◌∷◌, ◌++◌, Option, none, some, ltb, leb, ◌==◌,
  if◌then◌else◌, length, Bytes,
}
use cross_session_codex.Bytes.{
  same_bytes, has_byte, is_nothing, split_on, join_with, cut_last, strip_prefix,
}

abbrev pub dot : Bytes
dot = b'.' ∷ []

abbrev pub dot_dot : Bytes
dot_dot = b'.' ∷ b'.' ∷ []

-- One step of Clean over the elements kept so far, the last one first.
abbrev pub push : Bool → List Bytes → Bytes → List Bytes
push rooted [] e =
    if is_nothing e || same_bytes e dot
    then []
    else if same_bytes e dot_dot && rooted
    then []
    else e ∷ []
push rooted (top ∷ kept) e =
    if is_nothing e || same_bytes e dot
    then top ∷ kept
    else if same_bytes e dot_dot && not (same_bytes top dot_dot)
    then kept
    else e ∷ top ∷ kept

abbrev pub push_all : Bool → List Bytes → List Bytes → List Bytes
push_all rooted kept [] = kept
push_all rooted kept (e ∷ es) = push_all rooted (push rooted kept e) es

abbrev pub turn : List Bytes → List Bytes → List Bytes
turn [] out = out
turn (x ∷ xs) out = turn xs (x ∷ out)

abbrev pub is_abs : Bytes → Bool
is_abs [] = false
is_abs (b ∷ bs) = b == b'/'

-- The elements of Clean(path).
abbrev pub elements : Bytes → List Bytes
elements path = turn (push_all (is_abs path) [] (split_on b'/' path)) []

abbrev pub put_together : Bool → List Bytes → Bytes
put_together true es = b'/' ∷ join_with b'/' es
put_together false [] = dot
put_together false (e ∷ es) = join_with b'/' (e ∷ es)

unfoldable pub clean : Bytes → Bytes
clean path = put_together (is_abs path) (elements path)

abbrev pub starts_with : Bytes → Bytes → Bool
starts_with prefix s = elim (strip_prefix prefix s) [ none ↦ false | some rest ↦ true ]

-- filepath.Join of two paths
abbrev pub join : Bytes → Bytes → Bytes
join [] [] = []
join [] (b ∷ bs) = clean (b ∷ bs)
join (a ∷ rest) b = clean ((a ∷ rest) ++ b'/' ∷ b)

-- filepath.Dir
abbrev pub dir : Bytes → Bytes
dir path = elim (cut_last b'/' path) [
  | none ↦ dot
  | some (before, last) ↦ clean (before ++ b'/' ∷ [])
]

-- The last element, filepath.Base of a clean path.
abbrev pub last_of : List Bytes → Bytes
last_of [] = b'/' ∷ []
last_of (x ∷ []) = x
last_of (x ∷ y ∷ ys) = last_of (y ∷ ys)

abbrev pub base : Bytes → Bytes
base path = last_of (elements path)

-- The nearest parent that exists, and the elements below it that do not.
-- filepath.Rel of two absolute paths: the elements of base that are left, then those of target.
abbrev pub after_common : List Bytes → List Bytes → List Bytes × List Bytes
after_common [] target = ([], target)
after_common (b ∷ bs) [] = (b ∷ bs, [])
after_common (b ∷ bs) (t ∷ ts) =
    let rest = after_common bs ts in if same_bytes b t then rest else (b ∷ bs, t ∷ ts)

abbrev pub climb : List Bytes → List Bytes → List Bytes
climb [] target = target
climb (b ∷ bs) target = dot_dot ∷ climb bs target

abbrev pub rel : Bytes → Bytes → Bytes
rel base target =
    let (left, rest) = after_common (elements base) (elements target) in
    put_together false (climb left rest)

-- rel != ".." && !strings.HasPrefix(rel, "../")
abbrev pub stays_below : Bytes → Bool
stays_below r = not (same_bytes r dot_dot) && not (starts_with (b'.' ∷ b'.' ∷ b'/' ∷ []) r)
