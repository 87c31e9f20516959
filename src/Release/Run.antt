-- ===== src/Release/Run.antt =====
-- `run` of internal/release/release.go.
pub mod Guarded
pub mod Published
pub mod Metadata
pub mod Search
use cross_session_codex.Common.{
  ℕ, zero, suc, Bool, true, false, not, ◌&&◌, ◌||◌, ◌+◌, List, [], ◌∷◌, ◌++◌, Option, none, some,
  ltb, leb, ◌==◌, if◌then◌else◌, length, Bytes, codes, String,
}
use cross_session_codex.Bytes.{same_bytes, is_nothing, trim}
use cross_session_codex.Release.Tag.{valid_tag}
use cross_session_codex.Path.{
  join, dir, clean, is_abs, rel, stays_below, starts_with, elements, put_together,
}
use cross_session_codex.Release.Outside.{
  FileKind, regular_file, symbolic_link, Call, git, go, absolute, resolve, lstat, read_file,
  make_parents, make_stage, make_dir, remove_all, export_source, make_archive, digest_file,
  write_manifest, write_checksums, cancelled, publish_directory, rename, Reply, fails, absent, says,
  found, Act, ask, pure, stop, lift, require, text, need, each, collect, deferred, ◌>>=◌, ◌>>◌,
}
use cross_session_codex.Release.Source.{
  SourceState, Options, Target, Manifest, metadata, inspect_source, words,
}
use cross_session_codex.Release.Source.Environment.{build_environment}
use cross_session_codex.Path.{base}
use cross_session_codex.Release.Checks.{
  flag_count, mode_count, sound_options, root_of, repository_root, check_toolchain, existing_reply,
  existing, join_all, metadata_dir, outside_all, safe_output, is_replaceable,
  check_build_destination,
}

abbrev pub raw_name : Target → Bytes
raw_name t = codes "cross-session-codex-" ++ t.os ++ b'-' ∷ t.arch

abbrev pub target_of : String → String → Target
target_of os arch = record {
  os = codes os;
  arch = codes arch;
  archive = [];
  archive_sha256 = [];
  binary_sha256 = [];
}

abbrev pub release_targets : List Target
release_targets =
    target_of "darwin" "amd64"
    ∷ target_of "darwin" "arm64"
    ∷ target_of "linux" "amd64"
    ∷ target_of "linux" "arm64"
    ∷ []

-- What is fixed once the stage exists.
pub record Setup : Type 0 where
  pub root : Bytes
  pub before : SourceState
  pub manifest : Manifest
  pub output : Bytes
  pub stage : Bytes

abbrev pub packaging : Options → Bool
packaging o = not o.build && not o.cross_build

abbrev pub is_link : Reply → Bool
is_link (found symbolic_link) = true
is_link fails = true
is_link _ = false

abbrev pub is_absent : Reply → Bool
is_absent absent = true
is_absent _ = false

-- if condition { … }
abbrev pub when : Bool → Act (Unit {0}) → Act (Unit {0})
when b m = if b then m else pure tt

unfoldable pub set_up : (Bytes → Bytes) → List Bytes → Options → Act Setup
set_up digest environ o = require (sound_options o) >> repository_root o.source >>= λ root.
    inspect_source digest root [] >>= λ before. lift (metadata before o) >>= λ manifest.
    check_toolchain environ root >> text (absolute o.output) >>= λ given.
    when o.cross_build (ask (lstat (clean given)) >>= λ reply. require (not (is_link reply)))
    >> safe_output root (clean given)
    >>= λ output.
        when (packaging o) (ask (lstat output) >>= λ reply. require (is_absent reply))
        >> (let parent : Bytes = if o.cross_build then output else dir output in
            need (make_parents parent) >> text (resolve parent) >>= λ resolved.
            text (make_stage resolved) >>= λ stage. pure (record {
              root = root;
              before = before;
              manifest = manifest;
              output = if o.cross_build then resolved else join resolved (base output);
              stage = stage;
            }))

abbrev pub work_of : Setup → Bytes
work_of s = join s.stage (codes "work")

abbrev pub artifacts_of : Setup → Bytes
artifacts_of s = join s.stage (codes "artifacts")

abbrev pub destination_of : Options → Setup → Target → Bytes
destination_of o s t = if o.cross_build then join s.output (raw_name t) else s.output

abbrev pub flags_of : Manifest → Bytes
flags_of m =
    codes "-buildid= -X github.com/Tristan-Wilson/cross-session-codex/internal/bridge.Version="
    ++ (m.version
        ++ codes " -X github.com/Tristan-Wilson/cross-session-codex/internal/bridge.BuildCommit=")
    ++ m.source_commit

unfoldable pub compile :
    List Bytes → (ℕ → Bytes) → Bytes → Bytes → Target → Manifest → Act (Unit {0})
compile environ print_date root output t m = need (
    go root (build_environment environ t.os t.arch) (
      words ("build" ∷ "-mod=readonly" ∷ "-trimpath" ∷ "-buildvcs=false" ∷ "-ldflags" ∷ [])
      ++ (flags_of m
          ++ codes " -X github.com/Tristan-Wilson/cross-session-codex/internal/bridge.BuildDate="
          ++ print_date m.build_date)
        ∷ codes "-o"
        ∷ output
        ∷ codes "./cmd/cross-session-codex"
        ∷ []))

abbrev pub archive_name : Manifest → Target → Bytes
archive_name m t =
    codes "cross-session-codex_"
    ++ m.version
    ++ codes "_"
    ++ t.os
    ++ codes "_"
    ++ t.arch
    ++ codes ".tar.gz"

abbrev pub pack : Setup → Bytes → Bytes → Target → Act Target
pack s build_root binary t =
    need (make_archive (join (artifacts_of s) (archive_name s.manifest t)) binary build_root)
    >> text (digest_file (join (artifacts_of s) (archive_name s.manifest t)))
    >>= λ sum. pure (record t { archive = archive_name s.manifest t; archive_sha256 = sum })

abbrev pub make_target : List Bytes → (ℕ → Bytes) → Options → Setup → Bytes → Target → Act Target
make_target environ print_date o s build_root t =
    compile environ print_date build_root (join (work_of s) (raw_name t)) t s.manifest
    >> text (digest_file (join (work_of s) (raw_name t)))
    >>= λ sum.
        (let made : Target = record t { binary_sha256 = sum } in
          if packaging o then pack s build_root (join (work_of s) (raw_name t)) made else pure made)

abbrev pub targets_of : Target → Options → List Target
targets_of native o = if o.build then native ∷ [] else release_targets

abbrev pub build_root_of : Setup → Bytes
build_root_of s = if s.manifest.release then join (work_of s) (codes "source") else s.root

-- Everything before the last look at the source.
unfoldable pub build_all : List Bytes → (ℕ → Bytes) → Target → Options → Setup → Act (List Target)
build_all environ print_date native o s =
    need (make_dir (work_of s))
    >> need (make_dir (artifacts_of s))
    >> when s.manifest.release (need (export_source (build_root_of s) s.before.commit))
    >> when (not (packaging o))
        (each (λ t. check_build_destination s.root (destination_of o s t)) (targets_of native o))
    >> collect (make_target environ print_date o s (build_root_of s)) (targets_of native o)
    >>= λ made.
        when (packaging o) (
          need (write_manifest (join (artifacts_of s) (codes "release.json")))
          >> need (write_checksums (join (artifacts_of s) (codes "SHA256SUMS"))))
        >> pure made

unfoldable pub publish : Target → Options → Setup → Act (Unit {0})
publish native o s =
    if packaging o
    then need (publish_directory (artifacts_of s) s.output)
    else each
        (λ t.
          check_build_destination s.root (destination_of o s t)
          >> need (rename (join (work_of s) (raw_name t)) (destination_of o s t)))
        (targets_of native o)

unfoldable pub finish : (Bytes → Bytes) → Target → Options → Setup → List Target → Act Manifest
finish digest native o s made = inspect_source digest s.root s.stage >>= λ after.
    require (same_bytes s.before.fingerprint after.fingerprint)
    >> need cancelled
    >> publish native o s
    >> pure (record s.manifest { targets = made })

unfoldable pub run : (Bytes → Bytes) → (ℕ → Bytes) → List Bytes → Target → Options → Act Manifest
run digest print_date environ native o = set_up digest environ o >>= λ s.
    deferred (remove_all s.stage)
      (build_all environ print_date native o s >>= λ made. finish digest native o s made)
