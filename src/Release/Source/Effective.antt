-- ===== src/Release/Source/Effective.antt =====
-- What the commands of the release tool read of the environments that they are given.
use cross_session_codex.Common.{
  ◌≡◌, refl, sym, ◌∙◌, Bool, true, false, not, ◌&&◌, List, [], ◌∷◌, ◌++◌, Option, none, some, arith,
  Bytes, Bool-cases, inl, inr, if◌then◌else◌, codes, subst, ap, All, All-map,
}
use cross_session_codex.Bytes.{same_bytes, is_nothing, cut_first}
use cross_session_codex.Bytes.Cut.{same_bytes_eq}
use cross_session_codex.Release.Source.{words}
use cross_session_codex.Release.Source.Environment.{
  key_of, pass_keys, is_git_key, git_environment, is_build_key, levels, target_settings, always,
  build_environment,
}

-- What a command reads of its environment: the last entry with the key counts.
abbrev pub latest : Bytes → Bytes → Option Bytes → Option Bytes
latest key e (some entry) = some entry
latest key e none = if same_bytes (key_of e) key then some e else none

abbrev pub effective : Bytes → List Bytes → Option Bytes
effective key [] = none
effective key (e ∷ es) = latest key e (effective key es)

latest-other :
    (key e : Bytes) (o : Option Bytes) → same_bytes (key_of e) key ≡ false → latest key e o ≡ o
latest-other key e (some entry) h = refl
latest-other key e none h = rw h refl

effective-passed :
    (refused : Bytes → Bool) (key : Bytes) (es : List Bytes)
    → refused key ≡ true
    → effective key (pass_keys refused es) ≡ none
effective-passed refused key [] h = refl
effective-passed refused key (e ∷ es) h = elim (Bool-cases (refused (key_of e))) [
  | inl r ↦ rw r (effective-passed refused key es h)
  | inr r ↦ rw (r, effective-passed refused key es h) (latest-other key e none (other e r h))
]
  where
    other :
        (e : Bytes)
        → refused (key_of e) ≡ false
        → refused key ≡ true
        → same_bytes (key_of e) key ≡ false
    other e r h = elim (Bool-cases (same_bytes (key_of e) key)) [
      | inl k ↦
          let f : refused (key_of e) ≡ true = rw (same_bytes_eq (key_of e) key k) h in absurd cc
      | inr k ↦ k
    ]

effective-append_none :
    (key : Bytes) (xs ys : List Bytes)
    → effective key xs ≡ none
    → effective key (xs ++ ys) ≡ effective key ys
effective-append_none key [] ys h = refl
effective-append_none key (x ∷ xs) ys h = elim (Bool-cases (same_bytes (key_of x) key)) [
  | inl k ↦ absurd (first_found (effective key xs) k h)
  | inr k ↦
      let rest : effective key xs ≡ none = sym (latest-other key x (effective key xs) k) ∙ h in
      ap (latest key x) (effective-append_none key xs ys rest)
      ∙ latest-other key x (effective key ys) k
]
  where
    first_found : (o : Option Bytes) → same_bytes (key_of x) key ≡ true → latest key x o ≡ none → ⊥
    first_found none k h = let e : some x ≡ none = rw k at h in cc
    first_found (some y) k h = cc

effective-settled :
    (refused : Bytes → Bool) (key : Bytes) (environ fixed : List Bytes)
    → refused key ≡ true
    → effective key (pass_keys refused environ ++ fixed) ≡ effective key fixed
effective-settled refused key environ fixed h =
    effective-append_none key (pass_keys refused environ) fixed
      (effective-passed refused key environ h)

-- What git reads of a variable that starts with GIT_ does not depend on the environment of the tool.
pub git_environment-effective :
    (key : Bytes) (environ other : List Bytes)
    → is_git_key key ≡ true
    → effective key (git_environment environ) ≡ effective key (git_environment other)
unfolding git_environment
git_environment-effective key environ other h =
    effective-settled is_git_key key environ _ h ∙ sym (effective-settled is_git_key key other _ h)

effective-kept :
    (refused : Bytes → Bool) (key : Bytes) (es : List Bytes)
    → refused key ≡ false
    → effective key (pass_keys refused es) ≡ effective key es
effective-kept refused key [] h = refl
effective-kept refused key (e ∷ es) h = elim (Bool-cases (refused (key_of e))) [
  | inr r ↦ rw r (ap (latest key e) (effective-kept refused key es h))
  | inl r ↦
      rw r
        (effective-kept refused key es h ∙ sym (latest-other key e (effective key es) (other e r)))
]
  where
    other : (e : Bytes) → refused (key_of e) ≡ true → same_bytes (key_of e) key ≡ false
    other e r = elim (Bool-cases (same_bytes (key_of e) key)) [
      | inl k ↦
          let f : refused key ≡ true =
            subst (λ (x : Bytes). refused x ≡ true) (same_bytes_eq (key_of e) key k) r in
          absurd cc
      | inr k ↦ k
    ]

effective-append_kept :
    (key : Bytes) (xs ys : List Bytes)
    → effective key ys ≡ none
    → effective key (xs ++ ys) ≡ effective key xs
effective-append_kept key [] ys h = h
effective-append_kept key (x ∷ xs) ys h = ap (latest key x) (effective-append_kept key xs ys h)

-- A value that only a target has.
abbrev pub given : Bool → Bytes → Option Bytes
given true value = some value
given false value = none

abbrev pub unset : List Bytes → List (Bytes × Option Bytes)
unset [] = []
unset (k ∷ ks) = (k, none) ∷ unset ks

-- What the compiler is to read of a variable that chooses a target, a compiler, an experiment, a workspace
-- or flags: the settings of the release, with a target or without one, and none of any other variable.
abbrev pub settings : Bool → Bytes → Bytes → Bool → Bool → List (Bytes × Option Bytes)
settings target os arch amd64 arm64 =
    (codes "GOTOOLCHAIN", some (codes "GOTOOLCHAIN=go1.27.1"))
    ∷ (codes "GOENV", some (codes "GOENV=off"))
    ∷ (codes "GOWORK", some (codes "GOWORK=off"))
    ∷ (codes "GOFLAGS", some (codes "GOFLAGS="))
    ∷ (codes "CGO_ENABLED", some (codes "CGO_ENABLED=0"))
    ∷ (codes "GOOS", given target (codes "GOOS=" ++ os))
    ∷ (codes "GOARCH", given target (codes "GOARCH=" ++ arch))
    ∷ (codes "GOAMD64", given (target && amd64) (codes "GOAMD64=v1"))
    ∷ (codes "GOARM64", given (target && arm64) (codes "GOARM64=v8.0"))
    ∷ unset (
        words (
          "GOEXPERIMENT" ∷ "GOROOT" ∷ "GO111MODULE" ∷ "GODEBUG" ∷ "GOFIPS140" ∷ "GOARM" ∷ "GO386"
          ∷ "CC" ∷ "CXX" ∷ "GCCGO" ∷ "CGO_CFLAGS" ∷ "CGO_CPPFLAGS" ∷ "CGO_CXXFLAGS" ∷ "CGO_LDFLAGS"
          ∷ []))

-- What stays as the environment of the tool has it: the network, the caches and the user's own places.
abbrev pub ambient : List Bytes
ambient = words (
    "GOPATH" ∷ "GOCACHE" ∷ "GOMODCACHE" ∷ "GOPROXY" ∷ "GOSUMDB" ∷ "GOPRIVATE" ∷ "GONOPROXY"
    ∷ "GONOSUMDB" ∷ "HOME" ∷ "PATH" ∷ "HTTPS_PROXY" ∷ "TMPDIR" ∷ [])

-- A key that is turned down, and what the fixed settings say of it.
abbrev Fixed : List Bytes → Bytes × Option Bytes → Type 0
Fixed fixed (key, value) = (is_build_key key ≡ true) × (effective key fixed ≡ value)

-- A key that passes, and of which the fixed settings say nothing.
abbrev Passed : List Bytes → Bytes → Type 0
Passed fixed key = (is_build_key key ≡ false) × (effective key fixed ≡ none)

abbrev targeted : Bytes → Bytes → Bool → Bool → List Bytes
targeted [] arch amd64 arm64 = []
targeted (o ∷ os) arch amd64 arm64 =
    (codes "GOOS=" ++ o ∷ os) ∷ (codes "GOARCH=" ++ arch) ∷ levels amd64 arm64

settings-Fixed :
    (os arch : Bytes) (amd64 arm64 : Bool)
    → All
        (Fixed (always ++ targeted os arch amd64 arm64))
        (settings (not (is_nothing os)) os arch amd64 arm64)
unfolding cut_first
settings-Fixed [] arch amd64 arm64 = ground arith
settings-Fixed (o ∷ os) arch true true = ground arith
settings-Fixed (o ∷ os) arch true false = ground arith
settings-Fixed (o ∷ os) arch false true = ground arith
settings-Fixed (o ∷ os) arch false false = ground arith

ambient-Passed :
    (os arch : Bytes) (amd64 arm64 : Bool)
    → All (Passed (always ++ targeted os arch amd64 arm64)) ambient
unfolding cut_first
ambient-Passed [] arch amd64 arm64 = ground arith
ambient-Passed (o ∷ os) arch true true = ground arith
ambient-Passed (o ∷ os) arch true false = ground arith
ambient-Passed (o ∷ os) arch false true = ground arith
ambient-Passed (o ∷ os) arch false false = ground arith

targeted_eq :
    (os arch : Bytes)
    → target_settings os arch
      ≡ targeted os arch (same_bytes arch (codes "amd64")) (same_bytes arch (codes "arm64"))
targeted_eq [] arch = refl
targeted_eq (o ∷ os) arch = refl

-- In whatever environment the tool runs, the compiler reads each setting of the release as it is fixed,
-- the target among them, and no other choice of a compiler, of an experiment or of flags; and it reads
-- the ambient variables as the tool's environment has them.
pub build_environment-Settled :
    (environ : List Bytes) (os arch : Bytes)
    → All
        (λ s. effective s.0 (build_environment environ os arch) ≡ s.1)
        (settings
          (not (is_nothing os))
          os
          arch
          (same_bytes arch (codes "amd64"))
          (same_bytes arch (codes "arm64")))
      × All (λ k. effective k (build_environment environ os arch) ≡ effective k environ) ambient
unfolding build_environment
build_environment-Settled environ os arch =
    let amd64 : Bool = same_bytes arch (codes "amd64") in
    let arm64 : Bool = same_bytes arch (codes "arm64") in
    let fixed : List Bytes = always ++ target_settings os arch in
    let e : always ++ targeted os arch amd64 arm64 ≡ fixed =
      ap (λ (t : List Bytes). always ++ t) (sym (targeted_eq os arch)) in
    (
      All-map {P = Fixed fixed} {Q = λ s. effective s.0 (build_environment environ os arch) ≡ s.1}
          (λ s h. effective-settled is_build_key s.0 environ fixed h.0 ∙ h.1)
          (settings (not (is_nothing os)) os arch amd64 arm64)
          (subst
            (λ (t : List Bytes). All (Fixed t) (settings (not (is_nothing os)) os arch amd64 arm64))
            e (settings-Fixed os arch amd64 arm64)),
      All-map {P = Passed fixed}
          {Q = λ k. effective k (build_environment environ os arch) ≡ effective k environ}
          (λ k h.
            effective-append_kept k (pass_keys is_build_key environ) fixed h.1
            ∙ effective-kept is_build_key k environ h.0)
          ambient
          (subst (λ (t : List Bytes). All (Passed t) ambient) e
            (ambient-Passed os arch amd64 arm64)),
    )
