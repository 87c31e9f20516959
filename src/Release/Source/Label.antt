-- ===== src/Release/Source/Label.antt =====
-- How a source is labelled: what `metadata` says of the source that it is given.
use cross_session_codex.Common.{
  ◌≡◌, refl, subst, true, false, not, ◌&&◌, ◌||◌, List, [], ◌∷◌, none, some, arith, Bytes,
  Bool-cases, inl, inr, ◌⊎◌,
}
use cross_session_codex.Bytes.{is_nothing}
use cross_session_codex.Bytes.Cut.{same_bytes_refl}
use cross_session_codex.Release.Source.{
  SourceState, Options, Manifest, any_same, snapshot_version, labelled, by_tags, metadata,
}

-- A version that is a tag of a clean source.
abbrev pub IsTagged : SourceState → Manifest → Type 0
IsTagged s m = (s.dirty ≡ false) × (any_same m.tag s.tags ≡ true) × (m.version ≡ m.tag)

-- A version made from the commit, which is no release.
abbrev pub IsSnapshot : SourceState → Manifest → Type 0
IsSnapshot s m = (m.tag ≡ []) × (m.release ≡ false) × (m.version ≡ snapshot_version s)

pub record Describes (s : SourceState) (opts : Options) (m : Manifest) : Type 0 where
  pub commit_lem : m.source_commit ≡ s.commit
  pub dirty_lem : m.source_dirty ≡ s.dirty
  pub date_lem : m.build_date ≡ s.date
  pub release_lem : m.release ≡ not (is_nothing opts.tag)
  pub version_lem : IsTagged s m ⊎ IsSnapshot s m
  pub asked_lem : m.release ≡ true → m.version ≡ opts.tag
  pub snapshot_lem : is_nothing opts.tag ≡ true → opts.snapshot ≡ true → IsSnapshot s m

module _ (s : SourceState) (opts : Options) where
  release-Describes :
      is_nothing opts.tag ≡ false
      → s.dirty ≡ false
      → any_same opts.tag s.tags ≡ true
      → Describes s opts (labelled s opts.tag opts.tag true)
  release-Describes e d a = record {
    commit_lem = refl;
    dirty_lem = refl;
    date_lem = refl;
    release_lem = rw e refl;
    version_lem = inl (d, a, refl);
    asked_lem = λ _. refl;
    snapshot_lem = λ k _. absurd cc;
  }

  snapshot-Describes :
      is_nothing opts.tag ≡ true → Describes s opts (labelled s (snapshot_version s) [] false)
  snapshot-Describes e = record {
    commit_lem = refl;
    dirty_lem = refl;
    date_lem = refl;
    release_lem = rw e refl;
    version_lem = inr (refl, refl, refl);
    asked_lem = λ k. absurd cc;
    snapshot_lem = λ _ _. (refl, refl, refl);
  }

  tagged-Describes :
      (t : Bytes)
      → is_nothing opts.tag ≡ true
      → opts.snapshot ≡ false
      → s.dirty ≡ false
      → any_same t s.tags ≡ true
      → Describes s opts (labelled s t t false)
  tagged-Describes t e n d a = record {
    commit_lem = refl;
    dirty_lem = refl;
    date_lem = refl;
    release_lem = rw e refl;
    version_lem = inl (d, a, refl);
    asked_lem = λ k. absurd cc;
    snapshot_lem = λ _ k. absurd cc;
  }

  of_some : (m n : Manifest) → Describes s opts m → some m ≡ some n → Describes s opts n
  of_some m n d h = subst (Describes s opts) (cc) d

  by_tags-Describes :
      (ts : List Bytes) (m : Manifest)
      → is_nothing opts.tag ≡ true
      → opts.snapshot ≡ false
      → s.dirty ≡ false
      → s.tags ≡ ts
      → by_tags s ts ≡ some m
      → Describes s opts m
  by_tags-Describes [] m e n d t h = of_some _ m (snapshot-Describes e) h
  by_tags-Describes (t ∷ []) m e n d p h =
      of_some _ m (tagged-Describes t e n d (rw p (ground (arith, same_bytes_refl t)))) h
  by_tags-Describes (t ∷ u ∷ ts) m e n d p h = absurd cc

-- Every manifest that metadata makes describes its source: it has its commit, date and dirtiness; it
-- is a release exactly where a tag is asked for, and is then named by that tag; its version is a tag
-- of a clean source or made from the commit; a snapshot always has a version of the latter kind.
pub metadata-Describes :
    (s : SourceState) (opts : Options) (m : Manifest)
    → metadata s opts ≡ some m
    → Describes s opts m
unfolding metadata
metadata-Describes s opts m h = elim (Bool-cases (is_nothing opts.tag)) [
  | inl e ↦ elim (Bool-cases (not opts.snapshot && not s.dirty)) [
    | inl k ↦
        by_tags-Describes s opts s.tags m e (ground arith) (ground arith) refl (rw (e, k) at h)
    | inr k ↦ of_some s opts _ m (snapshot-Describes s opts e) (rw (e, k) at h)
  ]
  | inr e ↦ elim (Bool-cases (s.dirty || not (any_same opts.tag s.tags))) [
    | inl k ↦ let none_some : none ≡ some m = rw (e, k) at h in absurd cc
    | inr k ↦
        of_some s opts _ m (release-Describes s opts e (ground arith) (ground arith))
          (rw (e, k) at h)
  ]
]
