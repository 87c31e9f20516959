-- ===== src/Shutdown/Connections.antt =====
-- appserver_stop.go: `countAppConnections`, over the output of lsof.
use package.text.Mathlib.Text.{starts_with}
use Prim.Native.Char.{code}
use Prim.Native.String.{◌++◌ as str_append}
use cross_session_codex.Common.{
  ℕ, ◌-◌, String, Bool, not, ◌&&◌, ◌||◌, List, [], ◌∷◌, ltb, ◌==◌, str_eq, if◌then◌else◌, length,
  contains,
}
use cross_session_codex.Shutdown.{Stop, done, halt, connections_unknown}

abbrev add_to_first : String → List String → List String
add_to_first c [] = c ∷ []
add_to_first c (s ∷ ss) = str_append c s ∷ ss

-- bytes.Split(data, []byte{0})
unfoldable pub split : String → List String
split String.[] = "" ∷ []
split (String.◌∷◌ c s) =
    let rest = split s in if code c == 0 then "" ∷ rest else add_to_first (String.◌∷◌ c "") rest

-- strings.TrimLeft(field, "\n")
unfoldable pub trim_newlines : String → String
trim_newlines String.[] = ""
trim_newlines (String.◌∷◌ c s) =
    let rest = trim_newlines s in if code c == b'\n' then rest else String.◌∷◌ c s

-- What the fields so far say of the current process and file.
pub record Reading : Type 0 where
  pub process : String
  pub kind : String
  pub fd : String
  pub seen : List String

module _ (pid socket : String) where
  abbrev pub is_match : Reading → String → Bool
  is_match r name =
      str_eq r.process pid
      && str_eq r.kind "unix"
      && not (str_eq r.fd "")
      && (str_eq name socket || starts_with name (str_append socket " type=STREAM"))

  abbrev pub add_seen : String → List String → List String
  add_seen fd seen = if contains seen fd then seen else fd ∷ seen

  -- One field: its first character and the rest, which is not empty.
  unfoldable pub read_field : ℕ → String → Reading → Reading
  read_field first rest r =
      if first == b'p'
      then record r { process = rest; kind = ""; fd = "" }
      else if first == b'f'
      then record r { fd = rest; kind = "" }
      else if first == b't'
      then record r { kind = rest }
      else if first == b'n' && is_match r rest
      then record r { seen = add_seen r.fd r.seen }
      else r

  -- if len(field) < 2 { continue }
  abbrev pub read_text : String → Reading → Reading
  read_text String.[] r = r
  read_text (String.◌∷◌ c String.[]) r = r
  read_text (String.◌∷◌ c (String.◌∷◌ d s)) r = read_field (code c) (String.◌∷◌ d s) r

  unfoldable pub read_fields : List String → Reading → Reading
  unfolding read_field trim_newlines
  read_fields [] r = r
  read_fields (f ∷ fs) r = read_fields fs (read_text (trim_newlines f) r)

  abbrev pub counted : List String → Stop ℕ
  counted seen = if ltb (length seen) 2 then halt connections_unknown else done (length seen - 2)

  -- countAppConnections(output, pid, socket), with the decimal text of the pid
  unfoldable pub count_connections : String → Stop ℕ
  unfolding read_fields split
  count_connections output =
      counted
        (read_fields (split output) (record { process = ""; kind = ""; fd = ""; seen = [] })).seen
