-- ===== src/Release/Run/Guarded.antt =====
-- Nothing is published unless the source is what it was before the build.
use cross_session_codex.Common.{ℕ, zero, suc, ◌≡◌, refl, Bool, true, false, List, ◌∷◌, Bytes}
use cross_session_codex.Release.Outside.{
  Call, lstat, publish_directory, rename, Reply, fails, absent, says, found, Act, ask,
}
use cross_session_codex.Release.Outside.Quiet.{
  Makes, Makes-ask, Makes-pure, Makes-stop, Makes-lift, Makes-bind, Makes-require, Makes-if,
  Makes-text, Makes-need, Makes-each, Makes-collect,
}
use cross_session_codex.Path.{dir}
use cross_session_codex.Release.Source.{Options, Target, Manifest, inspect_source}
use cross_session_codex.Path.{base}
use cross_session_codex.Release.Checks.{
  repository_root, check_toolchain, safe_output, safe_output_within, existing, existing_reply,
  check_build_destination,
}
use cross_session_codex.Release.Run.{Setup, set_up, compile, make_target, build_all}

-- A call that changes nothing but the stage.
abbrev pub is_quiet : Call → Bool
is_quiet (publish_directory a b) = false
is_quiet (rename a b) = false
is_quiet _ = true

abbrev pub IsQuiet : Call → Type 0
IsQuiet c = is_quiet c ≡ true

ruleset makes = (
  Makes-ask, Makes-pure, Makes-stop, Makes-lift, Makes-bind, Makes-require, Makes-if, Makes-text,
  Makes-need, Makes-each, Makes-collect, refl,
)

pub inspect-IsQuiet :
    (digest : Bytes → Bytes) (root stage : Bytes) → Makes IsQuiet (inspect_source digest root stage)
unfolding inspect_source
inspect-IsQuiet digest root stage = search makes depth 40

repository_root-IsQuiet : (source : Bytes) → Makes IsQuiet (repository_root source)
unfolding repository_root
repository_root-IsQuiet source = search makes depth 40

check_toolchain-IsQuiet :
    (environ : List Bytes) (root : Bytes) → Makes IsQuiet (check_toolchain environ root)
unfolding check_toolchain
check_toolchain-IsQuiet environ root = search makes depth 40

existing_reply-IsQuiet :
    (parent : Bytes) (missing : List Bytes) (again : Act (Bytes × List Bytes))
    → Makes IsQuiet again
    → (r : Reply) → Makes IsQuiet (existing_reply parent missing again r)
existing_reply-IsQuiet parent missing again h fails = Makes-stop
existing_reply-IsQuiet parent missing again h absent = h
existing_reply-IsQuiet parent missing again h (says t) = Makes-pure _
existing_reply-IsQuiet parent missing again h (found k) = Makes-pure _

existing-IsQuiet :
    (n : ℕ) (parent : Bytes) (missing : List Bytes) → Makes IsQuiet (existing n parent missing)
existing-IsQuiet zero parent missing = Makes-stop
existing-IsQuiet (suc n) parent missing =
    let rest = existing-IsQuiet n (dir parent) (base parent ∷ missing) in
    Makes-bind (ask (lstat parent)) _ (Makes-ask (lstat parent) refl)
      (existing_reply-IsQuiet parent missing _ rest)

safe_output-IsQuiet : (root output : Bytes) → Makes IsQuiet (safe_output root output)
unfolding safe_output safe_output_within
safe_output-IsQuiet root output = search (makes, existing-IsQuiet) depth 40

check_build_destination-IsQuiet :
    (root path : Bytes) → Makes IsQuiet (check_build_destination root path)
unfolding check_build_destination
check_build_destination-IsQuiet root path = search makes depth 40

pub set_up-IsQuiet :
    (digest : Bytes → Bytes) (environ : List Bytes) (o : Options)
    → Makes IsQuiet (set_up digest environ o)
unfolding set_up
set_up-IsQuiet digest environ o =
    search
      (
        makes, inspect-IsQuiet, repository_root-IsQuiet, check_toolchain-IsQuiet,
        safe_output-IsQuiet,
      )
      depth 60

compile-IsQuiet :
    (environ : List Bytes) (print_date : ℕ → Bytes) (root output : Bytes) (t : Target)
    (m : Manifest)
    → Makes IsQuiet (compile environ print_date root output t m)
unfolding compile
compile-IsQuiet environ print_date root output t m = search makes depth 40

make_target-IsQuiet :
    (environ : List Bytes) (print_date : ℕ → Bytes) (o : Options) (s : Setup) (build_root : Bytes)
    (t : Target)
    → Makes IsQuiet (make_target environ print_date o s build_root t)
make_target-IsQuiet environ print_date o s build_root t = search (makes, compile-IsQuiet) depth 40

pub build_all-IsQuiet :
    (environ : List Bytes) (print_date : ℕ → Bytes) (native : Target) (o : Options) (s : Setup)
    → Makes IsQuiet (build_all environ print_date native o s)
unfolding build_all
build_all-IsQuiet environ print_date native o s =
    search (makes, make_target-IsQuiet, check_build_destination-IsQuiet) depth 60
