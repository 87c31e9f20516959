-- ===== src/Release/Archive/Inside.antt =====
-- Extracting a source archive makes nothing outside its destination, and nothing of an unsafe name.
use cross_session_codex.Common.{
  if_elim, ◌≡◌, ◌≢◌, refl, sym, ap, ◌∙◌, Bool, true, false, List, [], ◌∷◌, ◌++◌, append_assoc,
  arith, Bytes, Bool-cases, inl, inr, ◌⊎◌, if◌then◌else◌, All, All-append,
}
use cross_session_codex.Bytes.{split_on}
use cross_session_codex.Bytes.Split.{split_on-ne-nil}
use cross_session_codex.Path.{join, dir, is_abs, elements, put_together}
use cross_session_codex.Path.Cleaning.{IsPlain, elements-IsPlain}
use cross_session_codex.Path.Below.{IsBelow, split_on-IsPlain, join-IsBelow, dir-put_together}
use cross_session_codex.Release.Archive.{
  Kind, global_header, directory, regular, other, Header, Next, entry, broken, Mode,
  public_directory, private_directory, program, plain_file, Made, mkdir, mkdir_all, create, fill,
  Disk, Result, extracted, failed, unsafe_path, unsupported, fails_now, make, without_slash,
  is_unsafe, write_file, extract_regular, extract_safe, extract_entry, is_global, go_on,
  extract_all, extract_source,
}

abbrev pub path_of : Made → Bytes
path_of (mkdir p m) = p
path_of (mkdir_all p m) = p
path_of (create p m) = p
path_of (fill p) = p

-- The destination itself or a file below it.
abbrev pub IsInside : Bytes → Made → Type 0
IsInside destination m = (path_of m ≡ destination) ⊎ IsBelow destination (path_of m)

abbrev pub AreInside : Bytes → Disk → Type 0
AreInside destination d = All (IsInside destination) d.called

safe-IsPlain : (name : Bytes) → is_unsafe name ≡ false → All IsPlain (split_on b'/' name)
safe-IsPlain name h =
    split_on-IsPlain name (ground arith) (ground arith) (ground arith) (ground arith)

joined : (d name : Bytes) → is_abs d ≡ true → is_unsafe name ≡ false → IsBelow d (join d name)
joined d name a h =
    let p : All IsPlain (split_on b'/' name) = safe-IsPlain name h in
    record { under = split_on b'/' name; plain_under = p; text = join-IsBelow d name a p }

-- A list that is not empty has a last item.
unsnoc : (xs : List Bytes) → xs ≢ [] → (front : List Bytes) × (l : Bytes) × (xs ≡ front ++ l ∷ [])
unsnoc [] h = absurd (h refl)
unsnoc (x ∷ []) h = ([], x, refl)
unsnoc (x ∷ y ∷ ys) h =
    let (front, l, e) = unsnoc (y ∷ ys) (λ k. cc) in (x ∷ front, l, ap (λ t. x ∷ t) e)

All-front : (P : Bytes → Type 0) (xs : List Bytes) (l : Bytes) → All P (xs ++ l ∷ []) → All P xs
All-front P [] l h = tt
All-front P (x ∷ xs) l (h, hs) = (h, All-front P xs l hs)

All-last : (P : Bytes → Type 0) (xs : List Bytes) (l : Bytes) → All P (xs ++ l ∷ []) → P l
All-last P [] l (h, hs) = h
All-last P (x ∷ xs) l (h, hs) = All-last P xs l hs

dir-joined :
    (d name : Bytes) → is_abs d ≡ true → is_unsafe name ≡ false → IsBelow d (dir (join d name))
dir-joined d name a h =
    let p : All IsPlain (split_on b'/' name) = safe-IsPlain name h in
    let (front, l, e) = unsnoc (split_on b'/' name) (split_on-ne-nil b'/' name) in
    let q : All IsPlain (front ++ l ∷ []) = rw e at p in
    let whole : join d name ≡ put_together true ((elements d ++ front) ++ l ∷ []) =
      join-IsBelow d name a p
      ∙ ap (put_together true)
          (ap (λ t. elements d ++ t) e ∙ sym (append_assoc (elements d) front (l ∷ []))) in
    record {
      under = front;
      plain_under = All-front IsPlain front l q;
      text =
          ap dir whole
          ∙ dir-put_together (elements d ++ front) l
              (All-append IsPlain (elements d) front (elements-IsPlain d a)
                (All-front IsPlain front l q))
              ((All-last IsPlain front l q).no_slash);
    }

module _ (destination : Bytes) where
  make-inside :
      (m : Made) (d : Disk)
      → IsInside destination m
      → AreInside destination d
      → AreInside destination (make m d)
  make-inside m d h k = (h, k)

  write_file-inside :
      (file : Bytes) (mode : Mode) (d : Disk)
      → IsBelow destination file
      → AreInside destination d
      → AreInside destination (write_file file mode d).1
  write_file-inside file mode d b k = elim (Bool-cases (fails_now d)) [
    | inl e ↦ rw e (inr b, k)
    | inr e ↦ rw e (inr b, (inr b, k))
  ]

  extract_regular-inside :
      (file : Bytes) (x : Bool) (d : Disk)
      → IsBelow destination file
      → IsBelow destination (dir file)
      → AreInside destination d
      → AreInside destination (extract_regular file x d).1
  extract_regular-inside file x d b c k =
      if_elim (λ (t : Bool × Disk). AreInside destination t.1) (fails_now d) _ _ (λ e. (inr c, k))
        (λ e.
          write_file-inside file (if x then program else plain_file)
            (make (mkdir_all (dir file) public_directory) d) b (inr c, k))

  extract_entry-inside :
      (h : Header) (d : Disk)
      → is_abs destination ≡ true
      → AreInside destination d
      → AreInside destination (extract_entry destination h d).1
  extract_entry-inside h d a k = elim (Bool-cases (is_global h.kind)) [
    | inl g ↦ rw g k
    | inr g ↦ elim (Bool-cases (is_unsafe (without_slash h.name))) [
      | inl u ↦ rw (g, u) k
      | inr u ↦ rw (g, u) (safe h.kind u)
    ]
  ]
    where
      file : Bytes
      file = join destination (without_slash h.name)

      safe :
          (kind : Kind)
          → is_unsafe (without_slash h.name) ≡ false
          → AreInside destination
              (extract_safe
                (record { name = h.name; kind = kind; executable = h.executable })
                file
                d).1
      safe global_header u = k
      safe directory u = (inr (joined destination (without_slash h.name) a u), k)
      safe regular u =
          extract_regular-inside file h.executable d (joined destination (without_slash h.name) a u)
            (dir-joined destination (without_slash h.name) a u) k
      safe other u = k

  go_on-inside :
      (r : Result × Disk) (rest : Disk → Result × Disk)
      → AreInside destination r.1
      → ((d : Disk) → AreInside destination d → AreInside destination (rest d).1)
      → AreInside destination (go_on r rest).1
  go_on-inside (extracted, d) rest k f = f d k
  go_on-inside (failed, d) rest k f = k
  go_on-inside (unsafe_path n, d) rest k f = k
  go_on-inside (unsupported n, d) rest k f = k

  extract_all-inside :
      (nexts : List Next) (d : Disk)
      → is_abs destination ≡ true
      → AreInside destination d
      → AreInside destination (extract_all destination nexts d).1
  unfolding extract_all
  extract_all-inside [] d a k = k
  extract_all-inside (broken ∷ nexts) d a k = k
  extract_all-inside (entry h ∷ nexts) d a k =
      go_on-inside (extract_entry destination h d) (extract_all destination nexts)
        (extract_entry-inside h d a k) (λ d k. extract_all-inside nexts d a k)

-- Whatever the entries of the archive and whichever call fails, extractSource calls the system for files
-- and directories only at its destination and below it, where the destination is an absolute path.
pub extract_source-AreInside :
    (destination : Bytes) (nexts : List Next) (faults : List Bool)
    → is_abs destination ≡ true
    → AreInside destination
        (extract_source destination nexts (record { faults = faults; called = []; made = [] })).1
unfolding extract_source
extract_source-AreInside destination nexts faults a =
    let d : Disk = record { faults = faults; called = []; made = [] } in
    let d1 : Disk = make (mkdir destination private_directory) d in
    if_elim (λ (t : Result × Disk). AreInside destination t.1) (fails_now d) _ _
      (λ e. (inl refl, tt)) (λ e. extract_all-inside destination nexts d1 a (inl refl, tt))
