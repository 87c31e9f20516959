-- ===== src/Names.antt =====
-- internal/bridge/protocol.go: `normalizeName`, over the characters of a name. Which characters the
-- Unicode tables call control, format, surrogate or separator, and which are white space, is a
-- parameter.
pub mod Normal
use Prim.Native.Char.{Char, code}
use cross_session_codex.Common.{
  ℕ, zero, suc, ◌+◌, ◌≤◌, ◌≡◌, refl, ap, ◌∙◌, String, Bool, true, false, ◌&&◌, not, arith, ltb,
  if◌then◌else◌, inl, inr, Bool-cases,
}

abbrev pub runes : String → ℕ
runes String.[] = 0
runes (String.◌∷◌ c s) = suc (runes s)

abbrev pub take_runes : ℕ → String → String
take_runes zero s = ""
take_runes (suc n) String.[] = ""
take_runes (suc n) (String.◌∷◌ c s) = String.◌∷◌ c (take_runes n s)

abbrev pub append : String → String → String
append String.[] t = t
append (String.◌∷◌ c s) t = String.◌∷◌ c (append s t)

module _ (is_stripped is_space : Char → Bool) where
  -- strings.Map with -1 for the characters to leave out
  unfoldable pub strip : String → String
  strip String.[] = ""
  strip (String.◌∷◌ c s) = let rest = strip s in if is_stripped c then rest else String.◌∷◌ c rest

  unfoldable pub trim_left : String → String
  trim_left String.[] = ""
  trim_left (String.◌∷◌ c s) = let rest = trim_left s in if is_space c then rest else String.◌∷◌ c s

  abbrev keep_right : Char → String → String
  keep_right c String.[] = if is_space c then "" else String.◌∷◌ c ""
  keep_right c (String.◌∷◌ d s) = String.◌∷◌ c (String.◌∷◌ d s)

  unfoldable pub trim_right : String → String
  trim_right String.[] = ""
  trim_right (String.◌∷◌ c s) = keep_right c (trim_right s)

  -- string(r[:63]) + "…" for a name of more than 64 characters
  unfoldable pub shorten : String → String
  shorten s = if ltb 64 (runes s) then append (take_runes 63 s) "…" else s

  -- normalizeName(name)
  unfoldable pub normalize_name : String → String
  unfolding strip trim_left trim_right shorten
  normalize_name name = shorten (trim_right (trim_left (strip name)))
