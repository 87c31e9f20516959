-- ===== src/Release/Archive.antt =====
-- `extractSource` of internal/release/archive.go, over the entries that a tar reader gives.
pub mod Inside
pub mod Complete
use cross_session_codex.Common.{
  ℕ, Bool, true, false, not, ◌&&◌, ◌||◌, List, [], ◌∷◌, ◌++◌, Option, none, some, ltb, leb, ◌==◌,
  if◌then◌else◌, length, Bytes,
}
use cross_session_codex.Bytes.{same_bytes, has_byte, is_nothing, split_on}
use cross_session_codex.Path.{clean, join, dir, is_abs, starts_with, dot, dot_dot}

pub data Kind : Type 0 where
  global_header : Kind
  directory : Kind
  regular : Kind
  other : Kind

-- header.Mode & 0o111 != 0 is `executable`.
pub record Header : Type 0 where
  pub name : Bytes
  pub kind : Kind
  pub executable : Bool

-- What archive.Next answers; the end of the list is io.EOF.
pub data Next : Type 0 where
  entry : Header → Next
  broken : Next

pub data Mode : Type 0 where
  private_directory : Mode
  public_directory : Mode
  plain_file : Mode
  program : Mode

-- A call of the system that makes a file or a directory, or fills and closes a file.
pub data Made : Type 0 where
  mkdir : Bytes → Mode → Made
  mkdir_all : Bytes → Mode → Made
  create : Bytes → Mode → Made
  fill : Bytes → Made

-- Whether each call to come fails, the calls so far, those that failed among them, and what those that
-- succeeded have made; the last one comes first.
pub record Disk : Type 0 where
  pub faults : List Bool
  pub called : List Made
  pub made : List Made

pub data Result : Type 0 where
  extracted : Result
  failed : Result
  unsafe_path : Bytes → Result
  unsupported : Bytes → Result

abbrev pub fails_now : Disk → Bool
fails_now d = elim d.faults [ [] ↦ false | f ∷ fs ↦ f ]

abbrev pub later : List Bool → List Bool
later [] = []
later (f ∷ fs) = fs

abbrev pub recorded : Made → Bool → List Bool → Disk → Disk
recorded m fails rest d = record {
  faults = rest;
  called = m ∷ d.called;
  made = if fails then d.made else m ∷ d.made;
}

abbrev pub make : Made → Disk → Disk
make m d = recorded m (fails_now d) (later d.faults) d

-- Whether the call after the next one fails.
abbrev pub fails_then : Disk → Bool
fails_then d = elim (later d.faults) [ [] ↦ false | f ∷ fs ↦ f ]

-- Copying and closing: a file is whole where neither fails.
abbrev pub finish_file : Bytes → Disk → Disk
finish_file file d = recorded (fill file) (fails_now d || fails_then d) (later (later d.faults)) d

abbrev pub without_slash : Bytes → Bytes
without_slash [] = []
without_slash (b ∷ []) = if b == b'/' then [] else b ∷ []
without_slash (b ∷ c ∷ bs) = b ∷ without_slash (c ∷ bs)

abbrev pub is_unsafe : Bytes → Bool
is_unsafe name =
    is_nothing name
    || same_bytes name dot
    || is_abs name
    || not (same_bytes (clean name) name)
    || same_bytes name dot_dot
    || starts_with (b'.' ∷ b'.' ∷ b'/' ∷ []) name
    -- a backslash
    || has_byte 92 name

-- out is opened, filled and closed; closing is tried also where copying fails.
abbrev pub write_file : Bytes → Mode → Disk → Bool × Disk
write_file file mode d =
    let d1 : Disk = make (create file mode) d in
    if fails_now d then (false, d1) else (not (fails_now d1 || fails_then d1), finish_file file d1)

-- What becomes of one entry: whether the loop goes on.
abbrev pub extract_regular : Bytes → Bool → Disk → Bool × Disk
extract_regular file executable d =
    let d1 : Disk = make (mkdir_all (dir file) public_directory) d in
    if fails_now d
    then (false, d1)
    else write_file file (if executable then program else plain_file) d1

abbrev pub extract_safe : Header → Bytes → Disk → Result × Disk
extract_safe h file d = elim h.kind [
  | global_header ↦ (extracted, d)
  | directory ↦
      (if fails_now d then failed else extracted, make (mkdir_all file public_directory) d)
  | regular ↦
      let (fine, d1) = extract_regular file h.executable d in
      (if fine then extracted else failed, d1)
  | other ↦ (unsupported h.name, d)
]

abbrev pub is_global : Kind → Bool
is_global global_header = true
is_global _ = false

abbrev pub extract_entry : Bytes → Header → Disk → Result × Disk
extract_entry destination h d =
    if is_global h.kind
    then (extracted, d)
    else if is_unsafe (without_slash h.name)
    then (unsafe_path h.name, d)
    else extract_safe h (join destination (without_slash h.name)) d

abbrev pub go_on : Result × Disk → (Disk → Result × Disk) → Result × Disk
go_on (extracted, d) rest = rest d
go_on (failed, d) rest = (failed, d)
go_on (unsafe_path n, d) rest = (unsafe_path n, d)
go_on (unsupported n, d) rest = (unsupported n, d)

unfoldable pub extract_all : Bytes → List Next → Disk → Result × Disk
extract_all destination [] d = (extracted, d)
extract_all destination (broken ∷ nexts) d = (failed, d)
extract_all destination (entry h ∷ nexts) d =
    go_on (extract_entry destination h d) (extract_all destination nexts)

unfoldable pub extract_source : Bytes → List Next → Disk → Result × Disk
extract_source destination nexts d =
    let d1 : Disk = make (mkdir destination private_directory) d in
    let rest : Result × Disk = extract_all destination nexts d1 in
    if fails_now d then (failed, d1) else rest
