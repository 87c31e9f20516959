-- ===== src/Release/Checks.antt =====
-- The checks that a run of the release tool makes: its options, the repository, the compiler and the
-- places that it may write to, of internal/release/release.go and build.go.
use cross_session_codex.Common.{
  ℕ, zero, suc, Bool, true, false, not, ◌&&◌, ◌||◌, ◌+◌, List, [], ◌∷◌, ◌++◌, ◌==◌, if◌then◌else◌,
  length, Bytes, codes, String,
}
use cross_session_codex.Bytes.{same_bytes, is_nothing, trim}
use cross_session_codex.Release.Tag.{valid_tag}
use cross_session_codex.Path.{elements, base, join, dir, is_abs, rel, stays_below, starts_with}
use cross_session_codex.Release.Outside.{
  regular_file, git, go, resolve, lstat, read_file, Reply, fails, absent, says, found, Act, ask,
  pure, stop, require, text, ◌>>=◌, ◌>>◌,
}
use cross_session_codex.Release.Source.{Options, words}
use cross_session_codex.Release.Source.Environment.{build_environment}

abbrev pub flag_count : Bool → ℕ
flag_count b = if b then 1 else 0

-- modeCount
abbrev pub mode_count : Options → ℕ
mode_count o =
    flag_count (not (is_nothing o.tag))
    + flag_count o.snapshot
    + flag_count o.build
    + flag_count o.cross_build

abbrev pub sound_options : Options → Bool
sound_options o =
    mode_count o == 1 && not (is_nothing o.output) && (is_nothing o.tag || valid_tag o.tag)

abbrev pub root_of : Bytes → Bytes → Act Bytes
root_of root mod_text =
    require (
      starts_with (codes "module github.com/Tristan-Wilson/cross-session-codex" ++ 10 ∷ [])
        mod_text)
    >> pure root

unfoldable pub repository_root : Bytes → Act Bytes
repository_root source =
    text (
      git (if is_nothing source then codes "." else source)
        (words ("rev-parse" ∷ "--show-toplevel" ∷ [])))
    >>= λ body. text (resolve (trim body)) >>= λ root.
        text (read_file (join root (codes "go.mod"))) >>= λ mod_text. root_of root mod_text

unfoldable pub check_toolchain : List Bytes → Bytes → Act (Unit {0})
check_toolchain environ root =
    text (go root (build_environment environ [] []) (words ("env" ∷ "GOVERSION" ∷ []))) >>= λ body.
    require (same_bytes (trim body) (codes "go1.27.1"))

abbrev pub existing_reply :
    Bytes → List Bytes → Act (Bytes × List Bytes) → Reply → Act (Bytes × List Bytes)
existing_reply parent missing again fails = stop
existing_reply parent missing again absent = again
existing_reply parent missing again (says t) = pure (parent, missing)
existing_reply parent missing again (found k) = pure (parent, missing)

abbrev pub existing : ℕ → Bytes → List Bytes → Act (Bytes × List Bytes)
existing zero parent missing = stop
existing (suc n) parent missing =
    let again = existing n (dir parent) (base parent ∷ missing) in
    ask (lstat parent) >>= existing_reply parent missing again

abbrev pub join_all : Bytes → List Bytes → Bytes
join_all parent [] = parent
join_all parent (m ∷ ms) = join_all (join parent m) ms

abbrev pub metadata_dir : Bytes → String → Act Bytes
metadata_dir root option = text (git root (words ("rev-parse" ∷ option ∷ []))) >>= λ body.
    text (resolve (if is_abs (trim body) then trim body else join root (trim body)))

abbrev pub outside_all : Bytes → List Bytes → Bool
outside_all output [] = true
outside_all output (d ∷ ds) = not (stays_below (rel d output)) && outside_all output ds

-- The rest of safeOutput, from the directory that exists and what is missing below it.
abbrev pub after_search : Bytes → Bytes → Bytes × List Bytes → Act Bytes
after_search root output place = text (resolve place.0) >>= λ parent.
    metadata_dir root "--absolute-git-dir" >>= λ own.
    metadata_dir root "--git-common-dir" >>= λ common.
    (let o : Bytes = join (join_all parent place.1) (base output) in
      require (outside_all o (join root (codes ".git") ∷ own ∷ common ∷ [])) >> pure o)

-- safeOutput, with a number of rounds for the search.
unfoldable pub safe_output_within : ℕ → Bytes → Bytes → Act Bytes
safe_output_within rounds root output = existing rounds (dir output) [] >>= after_search root output

-- One round for each element of the directory, and one for the root.
abbrev pub rounds_for : Bytes → ℕ
rounds_for output = suc (length (elements (dir output)))

unfoldable pub safe_output : Bytes → Bytes → Act Bytes
safe_output root output = safe_output_within (rounds_for output) root output

abbrev pub is_replaceable : Reply → Bool
is_replaceable fails = false
is_replaceable absent = true
is_replaceable (says t) = false
is_replaceable (found regular_file) = true
is_replaceable (found _) = false

unfoldable pub check_build_destination : Bytes → Bytes → Act (Unit {0})
check_build_destination root path = ask (lstat path) >>= λ reply.
    require (is_replaceable reply)
    >> (if stays_below (rel root path)
        then (text (
              git root
                (words ("ls-files" ∷ "--" ∷ []) ++ (codes ":(literal)" ++ rel root path) ∷ []))
            >>= λ body. require (is_nothing body))
        else pure tt)
