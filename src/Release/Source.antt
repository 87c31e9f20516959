-- ===== src/Release/Source.antt =====
-- The source that is built: `inspectSource` and `metadata` of internal/release/release.go,
-- `gitEnvironment` and `buildEnvironment` of internal/release/build.go.
pub mod Label
pub mod Environment
pub mod Effective
use cross_session_codex.Common.{
  ℕ, zero, suc, ◌^◌, Bool, true, false, not, ◌&&◌, ◌||◌, List, [], ◌∷◌, ◌++◌, Option, none, some,
  ltb, leb, ◌==◌, if◌then◌else◌, length, Bytes, codes, take, String,
}
use cross_session_codex.Bytes.{
  same_bytes, is_digit, all_bytes, value_from, fields, is_nothing, is_hex, cut_first, trim,
  strip_prefix,
}
use cross_session_codex.Release.Tag.{valid_tag}
use cross_session_codex.Path.{rel, stays_below, starts_with}
use cross_session_codex.Release.Outside.{
  Call, git, Act, lift, pure, stop, require, text, ◌>>=◌, ◌>>◌,
}

pub record SourceState : Type 0 where
  pub commit : Bytes
  pub fingerprint : Bytes
  -- seconds since 1970
  pub date : ℕ
  pub dirty : Bool
  pub tags : List Bytes

-- opts.Tag is empty where none is asked for.
pub record Options : Type 0 where
  pub source : Bytes
  pub output : Bytes
  pub tag : Bytes
  pub snapshot : Bool
  pub build : Bool
  pub cross_build : Bool

pub record Target : Type 0 where
  pub os : Bytes
  pub arch : Bytes
  pub archive : Bytes
  pub archive_sha256 : Bytes
  pub binary_sha256 : Bytes

pub record Manifest : Type 0 where
  pub schema_version : ℕ
  pub project : Bytes
  pub version : Bytes
  pub tag : Bytes
  pub source_commit : Bytes
  pub source_dirty : Bool
  pub release : Bool
  -- time.RFC3339 of it is what the file says
  pub build_date : ℕ
  pub go_version : Bytes
  pub targets : List Target

abbrev pub any_same : Bytes → List Bytes → Bool
any_same tag [] = false
any_same tag (t ∷ ts) = same_bytes t tag || any_same tag ts

abbrev pub snapshot_version : SourceState → Bytes
snapshot_version s =
    (codes "v0.0.0-snapshot." ++ take 12 s.commit) ++ (if s.dirty then codes ".dirty" else [])

abbrev pub labelled : SourceState → Bytes → Bytes → Bool → Manifest
labelled s version tag release = record {
  schema_version = 1;
  project = codes "cross-session-codex";
  version = version;
  tag = tag;
  source_commit = s.commit;
  source_dirty = s.dirty;
  release = release;
  build_date = s.date;
  go_version = codes "go1.27.1";
  targets = [];
}

abbrev pub by_tags : SourceState → List Bytes → Option Manifest
by_tags s [] = some (labelled s (snapshot_version s) [] false)
by_tags s (t ∷ []) = some (labelled s t t false)
by_tags s (t ∷ u ∷ ts) = none

unfoldable pub metadata : SourceState → Options → Option Manifest
metadata s opts =
    if not (is_nothing opts.tag)
    then if s.dirty || not (any_same opts.tag s.tags)
      then none
      else some (labelled s opts.tag opts.tag true)
    else if not opts.snapshot && not s.dirty
    then by_tags s s.tags
    else some (labelled s (snapshot_version s) [] false)

abbrev pub keep_valid : List Bytes → List Bytes
keep_valid [] = []
keep_valid (t ∷ ts) = let rest = keep_valid ts in if valid_tag t then t ∷ rest else rest

-- The order of strings, and sort.Strings.
abbrev pub text_leb : Bytes → Bytes → Bool
text_leb [] ys = true
text_leb (x ∷ xs) [] = false
text_leb (x ∷ xs) (y ∷ ys) = ltb x y || x == y && text_leb xs ys

abbrev pub insert_sorted : Bytes → List Bytes → List Bytes
insert_sorted t [] = t ∷ []
insert_sorted t (u ∷ us) =
    let rest = insert_sorted t us in if text_leb t u then t ∷ u ∷ us else u ∷ rest

abbrev pub sort_texts : List Bytes → List Bytes
sort_texts [] = []
sort_texts (t ∷ ts) = insert_sorted t (sort_texts ts)

abbrev pub is_hex_digit : ℕ → Bool
is_hex_digit b = is_hex b || leb b'A' b && leb b b'F'

abbrev pub digits_value : Bytes → Option ℕ
digits_value s =
    if not (is_nothing s) && all_bytes is_digit s && ltb (value_from 0 s) (2 ^ 63)
    then some (value_from 0 s)
    else none

abbrev pub zero_only : Option ℕ → Option ℕ
zero_only none = none
zero_only (some n) = if n == 0 then some n else none

-- strconv.ParseInt(s, 10, 64), and an error where the number is negative
abbrev pub parse_seconds : Bytes → Option ℕ
parse_seconds [] = none
parse_seconds (b ∷ bs) =
    if b == b'+'
    then digits_value bs
    else if b == b'-'
    then zero_only (digits_value bs)
    else digits_value (b ∷ bs)

abbrev pub with_seconds : Bytes → Option ℕ → Option (Bytes × ℕ)
with_seconds commit none = none
with_seconds commit (some n) = some (commit, n)

-- The two fields of `git show`: the commit and its time.
abbrev pub read_head : List Bytes → Option (Bytes × ℕ)
read_head (commit ∷ seconds ∷ []) =
    if (length commit == 40 || length commit == 64) && all_bytes is_hex_digit commit
    then with_seconds commit (parse_seconds seconds)
    else none
read_head _ = none

abbrev pub words : List String → List Bytes
words [] = []
words (w ∷ ws) = codes w ∷ words ws

-- The files that git looks at: all of them, but not those of the stage where it is below root.
abbrev pub looked_at : Bytes → Bytes → List Bytes
looked_at root stage =
    if not (is_nothing stage) && stays_below (rel root stage)
    then codes "--" ∷ codes "." ∷ (codes ":(exclude,literal)" ++ rel root stage) ∷ []
    else codes "--" ∷ codes "." ∷ []

-- What is hashed: each part with a zero byte after it.
abbrev pub hashed : List Bytes → Bytes
hashed [] = []
hashed (p ∷ ps) = p ++ 0 ∷ hashed ps

abbrev pub source_state : (Bytes → Bytes) → Bytes → Bytes → Bytes → Bytes → Bytes × ℕ → SourceState
source_state digest head status diff tags (commit, seconds) = record {
  commit = commit;
  fingerprint = digest (hashed (head ∷ status ∷ diff ∷ tags ∷ []));
  date = seconds;
  dirty = not (is_nothing status);
  tags = sort_texts (keep_valid (fields tags));
}

unfoldable pub inspect_source : (Bytes → Bytes) → Bytes → Bytes → Act SourceState
inspect_source digest root stage =
    text (git root (words ("show" ∷ "-s" ∷ "--format=%H%n%ct" ∷ "HEAD" ∷ []))) >>= λ head.
    lift (read_head (fields head)) >>= λ commit.
    text (
      git root (
        words ("status" ∷ "--porcelain=v1" ∷ "--untracked-files=all" ∷ []) ++ looked_at root stage))
    >>= λ status.
        text (
          git root
            (words ("diff" ∷ "--binary" ∷ "--no-ext-diff" ∷ "HEAD" ∷ []) ++ looked_at root stage))
        >>= λ diff. text (git root (words ("tag" ∷ "--points-at" ∷ "HEAD" ∷ []))) >>= λ tags.
            pure (source_state digest head status diff tags commit)
