-- ===== src/Release/Outside.antt =====
-- What the release tool asks of the system: each call is answered by a function of its place in the
-- sequence of calls and of the call, so that the same question can have another answer later.
pub mod Quiet
use cross_session_codex.Common.{
  ℕ, suc, Bool, true, false, List, [], ◌∷◌, Option, none, some, if◌then◌else◌, Bytes,
}

pub data FileKind : Type 0 where
  regular_file symbolic_link other_file : FileKind

pub data Call : Type 0 where
  -- command(ctx, dir, env, name, args...)
  git : Bytes → List Bytes → Call
  go : Bytes → List Bytes → List Bytes → Call
  -- filepath.Abs, filepath.EvalSymlinks, os.Lstat, os.ReadFile
  absolute : Bytes → Call
  resolve : Bytes → Call
  lstat : Bytes → Call
  read_file : Bytes → Call
  -- os.MkdirAll, os.MkdirTemp, os.Mkdir, os.RemoveAll
  make_parents : Bytes → Call
  make_stage : Bytes → Call
  make_dir : Bytes → Call
  remove_all : Bytes → Call
  -- exportSource with the commit; makeArchive; digestFile; os.WriteFile; writeChecksums
  export_source : Bytes → Bytes → Call
  make_archive : Bytes → Bytes → Bytes → Call
  digest_file : Bytes → Call
  write_manifest : Bytes → Call
  write_checksums : Bytes → Call
  -- ctx.Err
  cancelled : Call
  -- publishDirectory and os.Rename, from and to
  publish_directory : Bytes → Bytes → Call
  rename : Bytes → Bytes → Call

pub data Reply : Type 0 where
  fails : Reply
  absent : Reply
  says : Bytes → Reply
  found : FileKind → Reply

-- The calls made so far, the last one first.
pub record World : Type 0 where
  pub clock : ℕ
  pub log : List Call

abbrev pub Outside : Type 0
Outside = ℕ → Call → Reply

abbrev pub Act : Type 0 → Type 0
Act A = Outside → World → Option A × World

unfoldable pub ask : Call → Act Reply
ask c outside w = (some (outside w.clock c), record { clock = suc w.clock; log = c ∷ w.log })

module _ {A : Type 0} where
  unfoldable pub pure : A → Act A
  pure a outside w = (some a, w)

  unfoldable pub stop : Act A
  stop outside w = (none, w)

  abbrev pub lift : Option A → Act A
  lift none = stop
  lift (some a) = pure a

module _ {A B : Type 0} where
  abbrev pub continue : Option A → (A → Act B) → Act B
  continue none f outside w = (none, w)
  continue (some a) f outside w = f a outside w

  infixl 5 ◌>>=◌ ◌>>◌
  unfoldable pub ◌>>=◌ : Act A → (A → Act B) → Act B
  ◌>>=◌ m f outside w = let (r, v) = m outside w in continue r f outside v

  abbrev pub ◌>>◌ : Act A → Act B → Act B
  m >> n = m >>= λ _. n

-- if !b { return error }
abbrev pub require : Bool → Act (Unit {0})
require b = if b then pure tt else stop

abbrev pub text_of : Reply → Act Bytes
text_of (says t) = pure t
text_of _ = stop

-- A call whose text is wanted, and one that only must not fail.
abbrev pub text : Call → Act Bytes
text c = ask c >>= text_of

abbrev pub settled : Reply → Act (Unit {0})
settled fails = stop
settled _ = pure tt

abbrev pub need : Call → Act (Unit {0})
need c = ask c >>= settled

abbrev pub each : {A : Type 0} → (A → Act (Unit {0})) → List A → Act (Unit {0})
each f [] = pure tt
each f (x ∷ xs) = f x >> each f xs

abbrev pub collect : {A B : Type 0} → (A → Act B) → List A → Act (List B)
collect f [] = pure []
collect f (x ∷ xs) = f x >>= λ y. collect f xs >>= λ ys. pure (y ∷ ys)

-- body, with a deferred call after it whose answer is dropped
abbrev pub deferred : {A : Type 0} → Call → Act A → Act A
deferred c body outside w = let (r, v) = body outside w in (r, (ask c outside v).1)
