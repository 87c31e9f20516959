-- ===== src/Common/Texts.antt =====
-- Texts that the program only compares are native strings; texts that it walks are lists of bytes.
use Prim.Native.Nat.{ℕ}
use Prim.Native.Char.{code}
use Prim.Native.String.{String}
use mathlib.Core.Bool.{Bool, false, ◌||◌}
use mathlib.Core.List.{List, [], ◌∷◌}
use text.Mathlib.Text.{◌==◌, starts_with}

abbrev pub Bytes : Type 0
Bytes = List ℕ

-- The code points of a literal; these are its bytes when the text is ASCII.
abbrev pub codes : String → Bytes
codes String.[] = []
codes (String.◌∷◌ c s) = code c ∷ codes s

-- `slices.Contains` and the sets that the program keeps as a `map[string]bool`
abbrev pub contains : List String → String → Bool
contains [] a = false
contains (x ∷ xs) a = x == a || contains xs a

-- strings.Contains(s, sub)
abbrev pub text_contains : String → String → Bool
text_contains String.[] sub = starts_with "" sub
text_contains (String.◌∷◌ c s) sub = starts_with (String.◌∷◌ c s) sub || text_contains s sub
