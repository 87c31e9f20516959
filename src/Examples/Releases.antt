-- ===== src/Examples/Releases.antt =====
-- The theorems about internal/release, applied to one repository and one archive.
use cross_session_codex.Common.{
  ◌↔◌, ◌≡◌, ◌≤◌, length, arith, refl, true, false, List, [], ◌∷◌, ◌++◌, some, All, if◌then◌else◌,
  Bytes, codes,
}
use cross_session_codex.Bytes.{same_bytes, cut_first, cut_last, split_on, join_with, fields}
use cross_session_codex.Release.Tag.{valid_tag}
use cross_session_codex.Release.Tag.Grammar.{Version, IsVersion, text_of}
use cross_session_codex.Release.Tag.Writing.{valid_tag-text_of, valid_tag_iff}
use cross_session_codex.Path.{clean, dir, elements}
use cross_session_codex.Release.Archive.{
  directory, regular, global_header, Next, entry, Disk, extract_source,
}
use cross_session_codex.Release.Archive.Inside.{AreInside, extract_source-AreInside}
use cross_session_codex.Release.Source.{SourceState, Options, metadata, labelled, inspect_source}
use cross_session_codex.Release.Source.Label.{Describes, metadata-Describes}
use cross_session_codex.Release.Source.Environment.{build_environment}
use cross_session_codex.Release.Source.Effective.{
  effective, settings, ambient, build_environment-Settled,
}
use cross_session_codex.Release.Outside.{
  Call, git, go, absolute, resolve, lstat, read_file, make_stage, digest_file, other_file, Reply,
  says, absent, found, fails, Outside, ask, pure, stop, ◌>>=◌,
}
use cross_session_codex.Release.Checks.{
  safe_output_within, repository_root, check_toolchain, safe_output,
}
use cross_session_codex.Release.Run.{target_of, set_up, compile, build_all, publish, finish, run}
use cross_session_codex.Release.Run.Published.{start, IsUnchanged, run-IsUnchanged, quiet_log}
use cross_session_codex.Release.Run.Search.{safe_output-ends}
use cross_session_codex.Release.Run.Metadata.{IsClear, safe_output-IsClear}

abbrev candidate : Version
candidate = record {
  major = codes "1";
  minor = codes "20";
  patch = codes "0";
  pre = some (codes "rc", codes "1" ∷ []);
  build = some (codes "001", []);
}

candidate-IsVersion : IsVersion candidate
candidate-IsVersion = record {
  numbers = (refl, (refl, (refl, tt)));
  pre_ok = (refl, (refl, tt));
  build_ok = (refl, tt);
}

valid_tag_iff_example :
    (valid_tag (codes "v1.20.0-rc.1+001") ≡ true)
    ↔ ((v : Version) × IsVersion v × (text_of v ≡ codes "v1.20.0-rc.1+001"))
valid_tag_iff_example = valid_tag_iff (codes "v1.20.0-rc.1+001")

candidate-accepted : valid_tag (text_of candidate) ≡ true
candidate-accepted = valid_tag-text_of candidate candidate-IsVersion

abbrev entries : List Next
entries =
    entry (record { name = codes "pax_global_header"; kind = global_header; executable = false })
    ∷ entry (record { name = codes "docs/"; kind = directory; executable = false })
    ∷ entry (record { name = codes "docs/a.md"; kind = regular; executable = false })
    ∷ []

extract_source-AreInside_example :
    AreInside
      (codes "/w/source")
      (extract_source
        (codes "/w/source")
        entries
        (record { faults = false ∷ false ∷ true ∷ []; called = []; made = [] })).1
extract_source-AreInside_example =
    extract_source-AreInside (codes "/w/source") entries (false ∷ false ∷ true ∷ []) refl

abbrev blank : Disk
blank = record { faults = []; called = []; made = [] }

abbrev clean_source : SourceState
clean_source = record {
  commit = codes "0123456789abcdef";
  fingerprint = codes "f";
  date = 7;
  dirty = false;
  tags = codes "v1.0.0" ∷ [];
}

abbrev asked : Options
asked = record {
  source = [];
  output = codes "/o/d";
  tag = codes "v1.0.0";
  snapshot = false;
  build = false;
  cross_build = false;
}

metadata-clean :
    metadata clean_source asked
    ≡ some (labelled clean_source (codes "v1.0.0") (codes "v1.0.0") true)
unfolding metadata
metadata-clean = refl

metadata-Describes_example :
    Describes clean_source asked (labelled clean_source (codes "v1.0.0") (codes "v1.0.0") true)
metadata-Describes_example =
    metadata-Describes clean_source asked
      (labelled clean_source (codes "v1.0.0") (codes "v1.0.0") true) metadata-clean

-- An environment that asks for cgo and another compiler.
abbrev hostile : List Bytes
hostile = codes "CGO_ENABLED=1" ∷ codes "CC=evil" ∷ codes "GOPATH=/g" ∷ []

build_environment-Settled_example :
    All
      (λ s. effective s.0 (build_environment hostile (codes "linux") (codes "arm64")) ≡ s.1)
      (settings true (codes "linux") (codes "arm64") false true)
    × All
        (λ k.
          effective k (build_environment hostile (codes "linux") (codes "arm64"))
          ≡ effective k hostile)
        ambient
build_environment-Settled_example =
    build_environment-Settled hostile (codes "linux") (codes "arm64")

-- The answers of a system with a clean repository at /r.
abbrev answer_git : List Bytes → Reply
answer_git [] = fails
answer_git (a ∷ []) = fails
answer_git (a ∷ b ∷ more) =
    if same_bytes a (codes "show")
    then says (codes "0123456789012345678901234567890123456789 1700000000")
    else if same_bytes a (codes "rev-parse")
    then says (if same_bytes b (codes "--show-toplevel") then codes "/r" else codes "/r/.git")
    else says []

abbrev answer : Call → Reply
answer (git root args) = answer_git args
answer (go root env args) = says (codes "go1.27.1")
answer (absolute p) = says (codes "/o/d")
answer (resolve p) = says p
answer (lstat p) = if same_bytes p (codes "/o/d") then absent else found other_file
answer (read_file p) =
    says (codes "module github.com/Tristan-Wilson/cross-session-codex" ++ 10 ∷ [])
answer (make_stage p) = says (codes "/o/s")
answer (digest_file p) = says (codes "ab")
answer _ = says []

abbrev system : Outside
system clock c = answer c

abbrev preview : Options
preview = record {
  source = [];
  output = codes "/o/d";
  tag = [];
  snapshot = true;
  build = false;
  cross_build = false;
}

safe-accepted : (safe_output (codes "/r") (codes "/o/d") system start).0 ≡ some (codes "/o/d")
unfolding safe_output safe_output_within clean cut_last split_on join_with ask pure stop ◌>>=◌
safe-accepted = refl

safe_output-IsClear_example : IsClear system (codes "/r") (codes "/o/d")
safe_output-IsClear_example =
    safe_output-IsClear system start (codes "/r") (codes "/o/d") (codes "/o/d") safe-accepted refl

preview-published :
    quiet_log (run (λ t. t) (λ n. []) [] (target_of "linux" "arm64") preview system start).1.log
    ≡ false
unfolding run finish publish build_all compile set_up repository_root check_toolchain inspect_source
    metadata safe_output safe_output_within clean cut_last cut_first split_on join_with fields
    build_environment valid_tag ask pure stop ◌>>=◌
preview-published = refl

run-IsUnchanged_example :
    IsUnchanged (λ t. t) (λ n. []) [] (target_of "linux" "arm64") preview system
run-IsUnchanged_example =
    run-IsUnchanged (λ t. t) (λ n. []) [] (target_of "linux" "arm64") preview system
      preview-published

rounds-enough : length (elements (dir (codes "/o/d"))) ≤ 4
unfolding clean cut_last split_on join_with
rounds-enough = omega arith

safe_output-ends_example :
    safe_output_within 5 (codes "/r") (codes "/o/d") system start
    ≡ safe_output (codes "/r") (codes "/o/d") system start
safe_output-ends_example =
    safe_output-ends system (codes "/r") (codes "/o/d") 4 start (λ k e. cc) refl rounds-enough
