-- ===== src/Worker/Artifacts.antt =====
-- worker.go: `listen`, `writeArtifact` and `cleanup`, the files that a worker makes and removes. A file
-- is known by its identity (os.SameFile), a number; a call may fail at any time.
use cross_session_codex.Common.{
  ℕ, String, Bool, true, false, List, [], ◌∷◌, Option, none, some, ◌==◌, str_eq, if◌then◌else◌,
}

-- The files by their path, and the map `artifacts`.
pub record Disk : Type 0 where
  pub files : String → Option ℕ
  pub artifacts : String → Option ℕ

-- What os.Lstat says of a path.
pub data Stat : Type 0 where
  absent unknown : Stat
  present : ℕ → Stat

abbrev pub of_file : Option ℕ → Stat
of_file none = absent
of_file (some i) = present i

abbrev pub lstat : Bool → String → Disk → Stat
lstat fails path d = if fails then unknown else of_file (d.files path)

abbrev pub at : String → Option ℕ → (String → Option ℕ) → String → Option ℕ
at path v f p = if str_eq p path then v else f p

-- The new file stands at the path; it is tracked if it can be seen there.
unfoldable pub put : Bool → ℕ → String → Disk → Bool × Disk
put seen fresh path d =
    if seen
    then (
      true,
      record { files = at path (some fresh) d.files; artifacts = at path (some fresh) d.artifacts },
    )
    else (false, record d { files = at path (some fresh) d.files })

-- One call: whether Lstat fails, whether the new file is made, its identity, and whether the second
-- Lstat sees it.
pub record Call : Type 0 where
  pub path : String
  pub lstat_fails : Bool
  pub makes : Bool
  pub fresh : ℕ
  pub sees : Bool

unfoldable pub made : Call → Disk → Bool × Disk
unfolding put
made c d = if c.makes then put c.sees c.fresh c.path d else (false, d)

abbrev pub by_stat : Option ℕ → Stat → Call → Disk → Bool × Disk
by_stat (some old) (present i) c d = if i == old then made c d else (false, d)
by_stat (some old) _ c d = (false, d)
by_stat none absent c d = made c d
by_stat none _ c d = (false, d)

-- writeArtifact(path, value, mode): whether it succeeds, and the disk after it
unfoldable pub write_artifact : Call → Disk → Bool × Disk
unfolding made
write_artifact c d = by_stat (d.artifacts c.path) (lstat c.lstat_fails c.path d) c d

-- listen(path), which makes a socket; `chmods` says that the mode can be set, else the socket goes.
abbrev pub listened : Bool → Call → Disk → Stat → Bool × Disk
listened chmods c d (present i) = (false, d)
listened chmods c d unknown = (false, d)
listened chmods c d absent =
    if c.makes
    then (if chmods
        then put c.sees c.fresh c.path d
        else (false, record d { files = at c.path none d.files }))
    else (false, d)

unfoldable pub listen : Bool → Call → Disk → Bool × Disk
unfolding put
listen chmods c d = listened chmods c d (lstat c.lstat_fails c.path d)

abbrev pub is_own : Option ℕ → Option ℕ → Bool
is_own (some a) (some i) = i == a
is_own _ _ = false

-- cleanup(); `removes` says of each path whether Lstat and the removal succeed
unfoldable pub cleanup : (String → Bool) → Disk → Disk
cleanup removes d = record d {
  files = λ p.
      if removes p
      then (if is_own (d.artifacts p) (d.files p) then none else d.files p)
      else d.files p;
}

-- What a worker does with its files over its life.
pub data Action : Type 0 where
  write : Call → Action
  open_socket : Bool → Call → Action
  clean : (String → Bool) → Action

abbrev pub act : Action → Disk → Disk
act (write c) d = (write_artifact c d).1
act (open_socket chmods c) d = (listen chmods c d).1
act (clean removes) d = cleanup removes d

unfoldable pub acts : List Action → Disk → Disk
unfolding write_artifact listen cleanup
acts [] d = d
acts (x ∷ xs) d = acts xs (act x d)
