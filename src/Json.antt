-- ===== src/Json.antt =====
-- internal/bridge/protocol.go: JSON values as `map[string]any` holds them, and the helpers `str`
-- and `number`. A number is whole; an object is the association list of its keys.
use cross_session_codex.Common.{
  ℕ, String, Bool, List, [], ◌∷◌, Option, none, some, str_eq, if◌then◌else◌,
}

-- `negsuc n` is -(n + 1).
pub data ℤ : Type 0 where
  pos : ℕ → ℤ
  negsuc : ℕ → ℤ

mutual
  pub data Json : Type 0 where
    null : Json
    boolean : Bool → Json
    num : ℤ → Json
    text : String → Json
    arr : Items → Json
    obj : Fields → Json

  pub data Items : Type 0 where
    end : Items
    item : Json → Items → Items

  pub data Fields : Type 0 where
    empty : Fields
    field : String → Json → Fields → Fields

-- m[key]; a missing key reads as null.
unfoldable pub get : Fields → String → Json
get empty key = null
get (field k v m) key = if str_eq k key then v else get m key

unfoldable pub has_key : Fields → String → Bool
has_key empty key = Bool.false
has_key (field k v m) key = if str_eq k key then Bool.true else has_key m key

-- s, ok := v.(string)
abbrev pub as_text : Json → Option String
as_text (text s) = some s
as_text _ = none

abbrev pub text_or_empty : Json → String
text_or_empty (text s) = s
text_or_empty _ = ""

-- str(m, key)
unfoldable pub str : Fields → String → String
unfolding get
str m key = text_or_empty (get m key)

abbrev pub num_or : ℤ → Json → ℤ
num_or fallback (num n) = n
num_or fallback _ = fallback

-- number(m, key, fallback)
unfoldable pub number : Fields → String → ℤ → ℤ
unfolding get
number m key fallback = num_or fallback (get m key)

-- The list of a JSON array.
abbrev pub to_list : Items → List Json
to_list end = []
to_list (item v vs) = v ∷ to_list vs
