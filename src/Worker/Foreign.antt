-- ===== src/Worker/Foreign.antt =====
-- worker.go: the worker never touches a file that is not its own.
use mathlib.Core.Path.{subst}
use cross_session_codex.Common.{
  ℕ, ◌≡◌, ◌⊎◌, refl, sym, ap, String, Bool, true, false, List, [], ◌∷◌, Option, none, some, ◌==◌,
  str_eq, eq_iff, Bool-cases, inl, inr, arith,
}
use cross_session_codex.Worker.Artifacts.{
  Disk, Stat, absent, unknown, present, of_file, lstat, put, Call, made, by_stat, write_artifact,
  listened, listen, is_own, cleanup, Action, write, open_socket, clean, act, acts,
}

-- A file that is not the worker's: it is there, and is not the one that is tracked at its path.
abbrev pub IsForeign : String → ℕ → Disk → Type 0
IsForeign p f d = (d.files p ≡ some f) × (is_own (d.artifacts p) (some f) ≡ false)

put-IsForeign :
    (seen : Bool) (fresh : ℕ) (path p : String) (f : ℕ) (d : Disk)
    → str_eq p path ≡ false
    → IsForeign p f d
    → IsForeign p f (put seen fresh path d).1
unfolding put
put-IsForeign true fresh path p f d other (h, k) = rw other (h, k)
put-IsForeign false fresh path p f d other (h, k) = rw other (h, k)

made-IsForeign :
    (c : Call) (p : String) (f : ℕ) (d : Disk)
    → str_eq p c.path ≡ false
    → IsForeign p f d
    → IsForeign p f (made c d).1
unfolding made
made-IsForeign c p f d other h = elim (Bool-cases c.makes) [
  | inl e ↦ rw e (put-IsForeign c.sees c.fresh c.path p f d other h)
  | inr e ↦ rw e h
]

write-IsForeign_other :
    (c : Call) (p : String) (f : ℕ) (d : Disk) (o : Option ℕ) (s : Stat)
    → str_eq p c.path ≡ false
    → IsForeign p f d
    → IsForeign p f (by_stat o s c d).1
write-IsForeign_other c p f d (some old) (present i) other h = elim (Bool-cases (i == old)) [
  | inl e ↦ rw e (made-IsForeign c p f d other h)
  | inr e ↦ rw e h
]
write-IsForeign_other c p f d (some old) absent other h = h
write-IsForeign_other c p f d (some old) unknown other h = h
write-IsForeign_other c p f d none absent other h = made-IsForeign c p f d other h
write-IsForeign_other c p f d none unknown other h = h
write-IsForeign_other c p f d none (present i) other h = h

-- What Lstat says of a file that is there.
lstat-present :
    (fails : Bool) (path : String) (f : ℕ) (d : Disk)
    → d.files path ≡ some f
    → (lstat fails path d ≡ unknown) ⊎ (lstat fails path d ≡ present f)
lstat-present true path f d h = inl refl
lstat-present false path f d h = inr (ap of_file h)

abbrev number_of : Stat → ℕ
number_of absent = 0
number_of unknown = 0
number_of (present i) = i

by_stat_same :
    (o : Option ℕ) (s : Stat) (c : Call) (f : ℕ) (d : Disk)
    → (s ≡ unknown) ⊎ (s ≡ present f)
    → is_own o (some f) ≡ false
    → (by_stat o s c d).1 ≡ d
by_stat_same none absent c f d (inl e) k = absurd cc
by_stat_same none absent c f d (inr e) k = absurd cc
by_stat_same none unknown c f d e k = refl
by_stat_same none (present i) c f d e k = refl
by_stat_same (some old) absent c f d e k = refl
by_stat_same (some old) unknown c f d e k = refl
by_stat_same (some old) (present i) c f d (inl e) k = absurd cc
by_stat_same (some old) (present i) c f d (inr e) k =
    let same : i ≡ f = ap number_of e in
    let other : (i == old) ≡ false = ground (arith, same, k) in rw other refl

-- At the path itself nothing is done.
write_same : (c : Call) (f : ℕ) (d : Disk) → IsForeign c.path f d → (write_artifact c d).1 ≡ d
unfolding write_artifact
write_same c f d (h, k) =
    by_stat_same (d.artifacts c.path) (lstat c.lstat_fails c.path d) c f d
      (lstat-present c.lstat_fails c.path f d h) k

listened_same :
    (chmods : Bool) (s : Stat) (c : Call) (f : ℕ) (d : Disk)
    → (s ≡ unknown) ⊎ (s ≡ present f)
    → (listened chmods c d s).1 ≡ d
listened_same chmods absent c f d (inl e) = absurd cc
listened_same chmods absent c f d (inr e) = absurd cc
listened_same chmods unknown c f d e = refl
listened_same chmods (present i) c f d e = refl

listen_same :
    (chmods : Bool) (c : Call) (f : ℕ) (d : Disk) → IsForeign c.path f d → (listen chmods c d).1 ≡ d
unfolding listen
listen_same chmods c f d (h, k) =
    listened_same chmods (lstat c.lstat_fails c.path d) c f d
      (lstat-present c.lstat_fails c.path f d h)

listened-IsForeign_other :
    (chmods : Bool) (s : Stat) (c : Call) (p : String) (f : ℕ) (d : Disk)
    → str_eq p c.path ≡ false
    → IsForeign p f d
    → IsForeign p f (listened chmods c d s).1
listened-IsForeign_other chmods (present i) c p f d other h = h
listened-IsForeign_other chmods unknown c p f d other h = h
listened-IsForeign_other chmods absent c p f d other h = elim (Bool-cases c.makes) [
  | inl e ↦ elim (Bool-cases chmods) [
    | inl k ↦ rw e (rw k (put-IsForeign c.sees c.fresh c.path p f d other h))
    | inr k ↦ rw e (rw k (rw other h))
  ]
  | inr e ↦ rw e h
]

act-IsForeign :
    (x : Action) (p : String) (f : ℕ) (d : Disk) → IsForeign p f d → IsForeign p f (act x d)
unfolding write_artifact listen cleanup
act-IsForeign (write c) p f d h = elim (Bool-cases (str_eq p c.path)) [
  | inl e ↦
      let same = (eq_iff p c.path).0 e in
      subst (IsForeign p f) (sym (write_same c f d (subst (λ q. IsForeign q f d) same h))) h
  | inr e ↦ write-IsForeign_other c p f d (d.artifacts c.path) (lstat c.lstat_fails c.path d) e h
]
act-IsForeign (open_socket chmods c) p f d h = elim (Bool-cases (str_eq p c.path)) [
  | inl e ↦
      let same = (eq_iff p c.path).0 e in
      subst (IsForeign p f) (sym (listen_same chmods c f d (subst (λ q. IsForeign q f d) same h))) h
  | inr e ↦ listened-IsForeign_other chmods (lstat c.lstat_fails c.path d) c p f d e h
]
act-IsForeign (clean removes) p f d (h, k) =
    (ground (arith, h, k, ap (is_own (d.artifacts p)) h), k)

-- Whatever sequence of writes, listening sockets and cleanups a worker runs, with whatever failures,
-- a file that is not the one it tracks at that path stays as it is: it is never replaced, never
-- removed, and never comes to be tracked.
pub acts-IsForeign :
    (xs : List Action) (p : String) (f : ℕ) (d : Disk)
    → (d.files p ≡ some f) × (is_own (d.artifacts p) (some f) ≡ false)
    → ((acts xs d).files p ≡ some f) × (is_own ((acts xs d).artifacts p) (some f) ≡ false)
unfolding acts
acts-IsForeign [] p f d h = h
acts-IsForeign (x ∷ xs) p f d h = acts-IsForeign xs p f (act x d) (act-IsForeign x p f d h)
