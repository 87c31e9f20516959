-- ===== src/Envelope.antt =====
-- internal/bridge/protocol.go: `userFrame` and `decodeUser`, the text envelope of a message. What
-- html.UnescapeString makes of an attribute, what uuid.Parse accepts, and how long the JSON encoder
-- makes a frame are parameters.
pub mod Agreement
use Prim.Native.Char.{Char, code}
use Prim.Native.String.{◌++◌ as str_append}
use package.text.Mathlib.Text.{starts_with}
use cross_session_codex.Common.{
  ℕ, zero, suc, ◌+◌, ◌-◌, ◌^◌, String, Bool, true, false, not, ◌&&◌, ◌||◌, Option, none, some, ltb,
  leb, ◌==◌, str_eq, if◌then◌else◌,
}
use cross_session_codex.Json.{pos, Json, Fields, obj, num, text, empty, field, get, str, number}
use cross_session_codex.Numbers.{int_eq}
use cross_session_codex.Names.{runes}
use cross_session_codex.Store.{Message}

abbrev pub closing_tag : String
closing_tag = "</cross-session-message>"

abbrev pub escaped_closing_tag : String
escaped_closing_tag = "<\\/cross-session-message>"

-- strings.ReplaceAll(s, old, new), for a nonempty old; `skip` characters belong to the last match.
unfoldable pub replace_from : String → String → ℕ → String → String
replace_from old new skip String.[] = ""
replace_from old new (suc skip) (String.◌∷◌ c s) = replace_from old new skip s
replace_from old new zero (String.◌∷◌ c s) = elim (starts_with (String.◌∷◌ c s) old) [
  | true ↦ str_append new (replace_from old new (runes old - 1) s)
  | false ↦ String.◌∷◌ c (replace_from old new zero s)
]

abbrev pub replace_all : String → String → String → String
replace_all s old new = replace_from old new zero s

-- html.EscapeString
abbrev pub escape_char : Char → String
escape_char c =
    if code c == b'&'
    then "&amp;"
    else if code c == b'\''
    then "&#39;"
    else if code c == b'<'
    then "&lt;"
    else if code c == b'>'
    then "&gt;"
    else if code c == b'"'
    then "&#34;"
    else String.◌∷◌ c ""

unfoldable pub escape : String → String
escape String.[] = ""
escape (String.◌∷◌ c s) = str_append (escape_char c) (escape s)

-- The rest of s after a prefix of n characters.
abbrev pub skip_runes : ℕ → String → String
skip_runes zero s = s
skip_runes (suc n) String.[] = ""
skip_runes (suc n) (String.◌∷◌ c s) = skip_runes n s

abbrev pub cut_prefix : String → String → Option String
cut_prefix p s = if starts_with s p then some (skip_runes (runes p) s) else none

abbrev prepend : Char → Option String → Option String
prepend c none = none
prepend c (some s) = some (String.◌∷◌ c s)

-- What stands in front of a suffix that is not empty.
unfoldable pub cut_suffix : String → String → Option String
cut_suffix q String.[] = none
cut_suffix q (String.◌∷◌ c s) =
    let rest = cut_suffix q s in if str_eq (String.◌∷◌ c s) q then some "" else prepend c rest

-- \s of the regular expressions
abbrev pub is_blank : Char → Bool
is_blank c = code c == b' ' || code c == b'\t' || code c == b'\n' || code c == b'\r' || code c == 12

-- [\w-]
abbrev pub is_name_char : Char → Bool
is_name_char c =
    leb b'0' (code c) && leb (code c) b'9'
    || leb b'A' (code c) && leb (code c) b'Z'
    || leb b'a' (code c) && leb (code c) b'z'
    || code c == b'_'
    || code c == b'-'

abbrev add_first : Char → String × String → String × String
add_first c (a, b) = (String.◌∷◌ c a, b)

-- The longest prefix of characters that pass, and the rest.
unfoldable pub span : (Char → Bool) → String → String × String
span p String.[] = ("", "")
span p (String.◌∷◌ c s) =
    let rest = span p s in if p c then add_first c rest else ("", String.◌∷◌ c s)

-- \s+([^>]+): the group, where at least one character is left to it
abbrev trimmed : String → Option String
trimmed String.[] = none
trimmed (String.◌∷◌ c String.[]) = none
trimmed (String.◌∷◌ c (String.◌∷◌ d s)) =
    let rest = trimmed (String.◌∷◌ d s) in
    if is_blank c
    then (if is_blank d
        then (if str_eq s "" then some (String.◌∷◌ d s) else rest)
        else some (String.◌∷◌ d s))
    else none

abbrev pub and_body : Option String → Option String → Option (String × String)
and_body (some a) (some b) = some (a, b)
and_body _ _ = none

abbrev after_open : String × String → Option (String × String)
after_open (attributes, rest) = elim (cut_prefix ">\n" rest) [
  | none ↦ none
  | some r ↦ and_body (trimmed attributes) (cut_suffix (str_append "\n" closing_tag) r)
]

-- envelopeRE.FindStringSubmatch(text)
unfoldable pub split_envelope : String → Option (String × String)
unfolding cut_suffix span
split_envelope s = elim (cut_prefix "<cross-session-message" s) [
  | none ↦ none
  | some rest ↦ after_open (span (λ c. not (code c == b'>')) rest)
]

-- The value of an attribute behind its name, and what follows it.
abbrev closed : String × String → Option (String × String)
closed (value, rest) = elim (cut_prefix "\"" rest) [
  | none ↦ none
  | some after ↦ some (value, after)
]

abbrev attribute_value : String → Option (String × String)
attribute_value s = elim (cut_prefix "=\"" s) [
  | none ↦ none
  | some rest ↦ closed (span (λ c. not (code c == b'"')) rest)
]

-- attrRE.FindAllStringSubmatch, and the map `attrs` by the name: a later attribute replaces an
-- earlier one. The fuel is at least the number of characters.
unfoldable pub attribute : ℕ → String → Option String → String → Option String
unfolding span
attribute zero key found s = found
attribute (suc fuel) key found String.[] = found
attribute (suc fuel) key found (String.◌∷◌ c s) =
    let run = span is_name_char (String.◌∷◌ c s) in
    elim (str_eq run.0 "") [
      | true ↦ attribute fuel key found s
      | false ↦ elim (attribute_value run.1) [
        | none ↦ attribute fuel key found run.1
        | some (value, rest) ↦
            attribute fuel key (if str_eq run.0 key then some value else found) rest
      ]
    ]

abbrev pub attr : String → String → Option String
attr attributes key = attribute (runes attributes) key none attributes

abbrev pub or_empty : Option String → String
or_empty none = ""
or_empty (some s) = s

-- Why a frame is not made or not taken.
pub data FrameError : Type 0 where
  empty_body unknown_class too_large unsupported invalid_uuid invalid_frame invalid_content :
      FrameError

pub data Framed (A : Type 0) : Type 0 where
  framed : A → Framed A
  unframed : FrameError → Framed A

-- MaxBuffer and MaxSerialized
abbrev pub max_buffer : ℕ
max_buffer = 2 ^ 20

abbrev pub max_serialized : ℕ
max_serialized = 1000000

module _ (normalize unescape : String → String) (is_uuid : String → Bool)
    (bytes units : Fields → ℕ) where
  unfoldable pub envelope : String → String → String → String → String
  unfolding escape replace_from
  envelope body address name mode = str_append "<cross-session-message from=\"" (
      str_append (escape address) (
        str_append "\" from-name=\"" (
          str_append (escape (normalize name)) (
            str_append "\" from-mode=\"" (
              str_append mode (
                str_append "\">\n" (
                  str_append (replace_all body closing_tag escaped_closing_tag)
                    (str_append "\n" closing_tag))))))))

  unfoldable pub frame_of : String → String → String → Fields
  frame_of id content address = field "msgV" (num (pos 1)) (
      field "msg_id" (text id) (
        field "type" (text "user") (
          field "message" (obj (field "role" (text "user") (field "content" (text content) empty)))
            (field "priority" (text "next") (field "from" (text address) empty)))))

  -- userFrame(body, address, name, mode), with `id` for the new UUID
  unfoldable pub user_frame : String → String → String → String → String → Framed Fields
  unfolding envelope frame_of
  user_frame id body address name mode =
      let f = frame_of id (envelope body address name mode) address in
      if str_eq body ""
      then unframed empty_body
      else if not (str_eq mode "prompting") && not (str_eq mode "bypass")
      then unframed unknown_class
      else if ltb max_buffer (bytes f + 1) || ltb max_serialized (units f)
      then unframed too_large
      else framed f

  -- The message that a frame with the content `raw` and the two groups of the match stands for; what
  -- `receive` and `Accept` add is as they find it: no identity, no id.
  unfoldable pub message_of : Fields → String → Option (String × String) → Message
  unfolding get attribute replace_from str
  message_of frame raw parts =
      let attributes : String = elim parts [ none ↦ "" | some (a, b) ↦ a ] in
      let body : String = elim parts [
        | none ↦ raw
        | some (a, b) ↦ replace_all b escaped_closing_tag closing_tag
      ] in
      let mode : Option String = elim (attr attributes "from-mode") [
        | none ↦ none
        | some m ↦ some (unescape m)
      ] in
      record {
        wire_id = str frame "msg_id";
        body = body;
        sender = get frame "from";
        from_name = normalize (unescape (or_empty (attr attributes "from-name")));
        from_mode = mode;
        raw_envelope = raw;
        hop_chain = unescape (or_empty (attr attributes "hop-chain"));
        verified_peer_pid = 0;
        verified_peer_start = "";
        id = "";
        received_at = 0;
      }

  abbrev pub with_content : Fields → Json → Framed Message
  with_content frame (text raw) = framed (message_of frame raw (split_envelope raw))
  with_content frame _ = unframed invalid_content

  abbrev pub with_message : Fields → Json → Framed Message
  with_message frame (obj m) =
      if str_eq (str m "role") "user"
      then with_content frame (get m "content")
      else unframed invalid_frame
  with_message frame _ = unframed invalid_frame

  -- decodeUser(frame)
  unfoldable pub decode_user : Fields → Framed Message
  unfolding message_of split_envelope get str number
  decode_user frame =
      if not (int_eq (number frame "msgV" (pos 0)) (pos 1))
        || not (str_eq (str frame "type") "user")
      then unframed unsupported
      else if not (is_uuid (str frame "msg_id"))
      then unframed invalid_uuid
      else with_message frame (get frame "message")
