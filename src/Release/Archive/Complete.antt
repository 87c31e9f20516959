-- ===== src/Release/Archive/Complete.antt =====
-- An extraction that ends without an error has made every entry.
use cross_session_codex.Common.{◌≡◌, Bool, true, false, List, [], ◌∷◌, Bytes, ◌⊎◌, if◌then◌else◌}
use cross_session_codex.Path.{join, dir}
use cross_session_codex.Release.Archive.{
  Kind, global_header, directory, regular, other, Header, Next, entry, broken, Mode,
  public_directory, program, plain_file, Made, mkdir_all, create, fill, Disk, make, without_slash,
  is_unsafe,
}

-- Whether the call is among those made.
abbrev pub Among : Made → List Made → Type 0
Among m [] = ⊥
Among m (x ∷ xs) = (x ≡ m) ⊎ Among m xs

abbrev pub mode_of : Header → Mode
mode_of h = if h.executable then program else plain_file

-- What the entry asks for has been made.
abbrev pub Arrived : Bytes → List Made → Next → Type 0
Arrived destination made broken = ⊥
Arrived destination made (entry h) = elim h.kind [
  | global_header ↦ Unit {0}
  | directory ↦
      (is_unsafe (without_slash h.name) ≡ false)
      × Among (mkdir_all (join destination (without_slash h.name)) public_directory) made
  | regular ↦
      (is_unsafe (without_slash h.name) ≡ false)
      × Among (mkdir_all (dir (join destination (without_slash h.name))) public_directory) made
      × Among (create (join destination (without_slash h.name)) (mode_of h)) made
      × Among (fill (join destination (without_slash h.name))) made
  | other ↦ ⊥
]

abbrev Grows : Disk → Disk → Type 0
Grows d e = (m : Made) → Among m d.made → Among m e.made

-- What a file that is written has: its creation and its content.
abbrev Written : Bytes → Mode → Bool × Disk → Type 0
Written file mode (fine, d) =
    fine ≡ true → Among (create file mode) d.made × Among (fill file) d.made

-- The disk after the directory of a regular file is made.
abbrev prepared : Bytes → Disk → Disk
prepared file d = make (mkdir_all (dir file) public_directory) d

abbrev chosen : Bool → Mode
chosen x = if x then program else plain_file

-- A regular file has its directory too.
abbrev Placed : Bytes → Mode → Bool × Disk → Type 0
Placed file mode (fine, d) =
    fine ≡ true
    → Among (mkdir_all (dir file) public_directory) d.made
      × Among (create file mode) d.made
      × Among (fill file) d.made

module _ (destination name : Bytes) (executable : Bool) (d : Disk) where
  abbrev header : Kind → Header
  header kind = record { name = name; kind = kind; executable = executable }

  abbrev file : Bytes
  file = join destination (without_slash name)
