-- ===== src/Release/Source/Environment.antt =====
-- The environment of the commands that the release tool runs: `gitEnvironment` and `buildEnvironment`
-- of internal/release/build.go.
use cross_session_codex.Common.{
  Bool, false, not, ◌&&◌, ◌||◌, List, [], ◌∷◌, ◌++◌, none, some, Bytes, if◌then◌else◌, codes,
}
use cross_session_codex.Bytes.{same_bytes, is_nothing, cut_first}
use cross_session_codex.Path.{starts_with}
use cross_session_codex.Release.Source.{words}

abbrev pub key_of : Bytes → Bytes
key_of entry = elim (cut_first b'=' entry) [ none ↦ entry | some (key, value) ↦ key ]

-- The entries whose key is not turned down.
abbrev pub pass_keys : (Bytes → Bool) → List Bytes → List Bytes
pass_keys refused [] = []
pass_keys refused (e ∷ es) =
    let rest = pass_keys refused es in if refused (key_of e) then rest else e ∷ rest

abbrev pub is_git_key : Bytes → Bool
is_git_key key = starts_with (codes "GIT_") key

unfoldable pub git_environment : List Bytes → List Bytes
git_environment environ =
    pass_keys is_git_key environ
    ++ words (
        "GIT_CONFIG_NOSYSTEM=1" ∷ "GIT_CONFIG_GLOBAL=/dev/null" ∷ "GIT_NO_REPLACE_OBJECTS=1"
        ∷ "GIT_OPTIONAL_LOCKS=0" ∷ [])

abbrev one_of : List Bytes → Bytes → Bool
one_of [] key = false
one_of (k ∷ ks) key = same_bytes k key || one_of ks key

abbrev safe_go : List Bytes
safe_go = words (
    "GOPATH" ∷ "GOCACHE" ∷ "GOMODCACHE" ∷ "GOPROXY" ∷ "GOSUMDB" ∷ "GOPRIVATE" ∷ "GONOPROXY"
    ∷ "GONOSUMDB" ∷ [])

abbrev pub is_build_key : Bytes → Bool
is_build_key key =
    starts_with (codes "GO") key && not (one_of safe_go key)
    || starts_with (codes "CGO_") key
    || one_of (words ("CC" ∷ "CXX" ∷ "GCCGO" ∷ [])) key

-- The level of an architecture, where it is one of these two.
abbrev pub levels : Bool → Bool → List Bytes
levels amd64 arm64 =
    (if amd64 then codes "GOAMD64=v1" ∷ [] else [])
    ++ (if arm64 then codes "GOARM64=v8.0" ∷ [] else [])

-- The settings for a target; its OS is empty where none is chosen.
abbrev pub target_settings : Bytes → Bytes → List Bytes
target_settings os arch =
    if is_nothing os
    then []
    else (codes "GOOS=" ++ os)
      ∷ (codes "GOARCH=" ++ arch)
      ∷ levels (same_bytes arch (codes "amd64")) (same_bytes arch (codes "arm64"))

abbrev pub always : List Bytes
always =
    words ("GOTOOLCHAIN=go1.27.1" ∷ "GOENV=off" ∷ "GOWORK=off" ∷ "GOFLAGS=" ∷ "CGO_ENABLED=0" ∷ [])

unfoldable pub build_environment : List Bytes → Bytes → Bytes → List Bytes
build_environment environ os arch =
    pass_keys is_build_key environ ++ (always ++ target_settings os arch)
