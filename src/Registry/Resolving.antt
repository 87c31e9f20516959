-- ===== src/Registry/Resolving.antt =====
-- `Discover` and `resolve` of internal/bridge/protocol.go: a target names one peer or none.
use cross_session_codex.Common.{
  ◌≡◌, refl, subst, ap, Bool, true, false, not, ◌&&◌, ◌||◌, List, [], ◌∷◌, ◌++◌, Option, none, some,
  Bool-cases, inl, inr, if◌then◌else◌, Bytes, codes, String, str_eq, eq_iff, All, All-append,
}
use cross_session_codex.Bytes.{same_bytes, is_nothing}
use cross_session_codex.Json.{ℤ, pos}
use cross_session_codex.Numbers.{int_eq, is_positive}
use cross_session_codex.Peer.{Peer}
use cross_session_codex.Registry.{socket_path}

-- What a discovery asks of the system: strconv.Itoa, verifyPeerIdentity, processStart, and the first ten
-- digits of the hash of a pid and a start.
pub record Questions : Type 0 where
  pub itoa : ℤ → Bytes
  pub verified : ℤ → String → String → Bool
  pub process_start : ℤ → Option String
  pub ref_of : ℤ → String → String

-- A file of the registry, and the peer that readJSON reads from it.
pub record Entry : Type 0 where
  pub file : Bytes
  pub advertised : Option Peer

abbrev pub has_suffix : Bytes → Bytes → Bool
has_suffix suffix [] = is_nothing suffix
has_suffix suffix (b ∷ bs) = same_bytes (b ∷ bs) suffix || has_suffix suffix bs

abbrev pub same_start : Option String → String → Bool
same_start none s = false
same_start (some t) s = str_eq t s

abbrev pub host_fits : Questions → Peer → Bool
host_fits q p =
    let fits : Bool = same_start (q.process_start p.host_pid) p.host_start in
    if is_positive p.host_pid then fits else true

abbrev pub has_path : Option Bytes → Bool
has_path none = false
has_path (some p) = true

abbrev pub is_present : Questions → ℤ → Bytes → Peer → Bool
is_present q exclude file p =
    same_bytes (q.itoa p.pid ++ codes ".json") file
    && (not (int_eq p.pid exclude)
        && (int_eq p.protocol (pos 1)
            && (not (str_eq p.name "")
                && (q.verified p.pid p.start p.domain
                    && (host_fits q p
                        && has_path (socket_path (codes "uds:" ++ codes p.socket)))))))

abbrev pub found_peer : Questions → ℤ → Bytes → Option Peer → List Peer
found_peer q exclude file none = []
found_peer q exclude file (some p) =
    if has_suffix (codes ".json") file && is_present q exclude file p
    then record p { ref = q.ref_of p.pid p.start } ∷ []
    else []

abbrev pub found_peers : Questions → ℤ → List Entry → List Peer
found_peers q exclude [] = []
found_peers q exclude (e ∷ es) =
    found_peer q exclude e.file e.advertised ++ found_peers q exclude es

-- The registry: missing, unsafe or unreadable, or a directory with entries.
pub data Directory : Type 0 where
  missing : Directory
  unsafe_directory : Directory
  listed : List Entry → Directory

unfoldable pub discover : Questions → ℤ → Directory → Option (List Peer)
discover q exclude missing = some []
discover q exclude unsafe_directory = none
discover q exclude (listed es) = some (found_peers q exclude es)

abbrev pub names : String → Peer → Bool
names target p =
    str_eq target p.name
    || str_eq target p.ref
    || same_bytes (codes target) (codes "uds:" ++ codes p.socket)

abbrev pub matching : String → List Peer → List Peer
matching target [] = []
matching target (p ∷ ps) =
    let rest = matching target ps in if names target p then p ∷ rest else rest

abbrev pub only : List Peer → Option Peer
only (p ∷ []) = some p
only _ = none

abbrev pub only_matching : String → Option (List Peer) → Option Peer
only_matching target none = none
only_matching target (some ps) = only (matching target ps)

unfoldable pub resolve : Questions → ℤ → Directory → String → Option Peer
resolve q exclude registry target = only_matching target (discover q exclude registry)

-- What holds of every peer that a discovery lists.
pub record IsVetted (q : Questions) (exclude : ℤ) (p : Peer) : Type 0 where
  pub other_lem : int_eq p.pid exclude ≡ false
  pub protocol_lem : int_eq p.protocol (pos 1) ≡ true
  pub named_lem : str_eq p.name "" ≡ false
  pub verified_lem : q.verified p.pid p.start p.domain ≡ true
  pub host_lem : is_positive p.host_pid ≡ true → q.process_start p.host_pid ≡ some p.host_start
  pub address_lem : has_path (socket_path (codes "uds:" ++ codes p.socket)) ≡ true
  pub ref_lem : p.ref ≡ q.ref_of p.pid p.start

-- The peer is in the list, the target names it, and it names no other one.
pub record IsOnly (target : String) (ps : List Peer) (p : Peer) : Type 0 where
  pub before : List Peer
  pub after : List Peer
  pub place_lem : ps ≡ before ++ p ∷ after
  pub named_lem : names target p ≡ true
  pub before_lem : All (λ o. names target o ≡ false) before
  pub after_lem : All (λ o. names target o ≡ false) after

matching-nil :
    (target : String) (ps : List Peer)
    → matching target ps ≡ []
    → All (λ o. names target o ≡ false) ps
matching-nil target [] h = tt
matching-nil target (p ∷ ps) h = elim (Bool-cases (names target p)) [
  | inl e ↦ let k : p ∷ matching target ps ≡ [] = rw e at h in absurd cc
  | inr e ↦ (e, matching-nil target ps (rw e at h))
]

only_one : (l : List Peer) (p : Peer) → only l ≡ some p → l ≡ p ∷ []
only_one [] p h = absurd cc
only_one (x ∷ []) p h = cc
only_one (x ∷ y ∷ l) p h = absurd cc

matching-IsOnly :
    (target : String) (ps : List Peer) (p : Peer) → matching target ps ≡ p ∷ [] → IsOnly target ps p
matching-IsOnly target [] p h = absurd cc
matching-IsOnly target (x ∷ ps) p h = elim (Bool-cases (names target x)) [
  | inl e ↦
      let k : x ∷ matching target ps ≡ p ∷ [] = rw e at h in
      let same : x ≡ p = cc in
      record {
        before = [];
        after = ps;
        place_lem = ap (λ (t : Peer). t ∷ ps) same;
        named_lem = subst (λ (t : Peer). names target t ≡ true) same e;
        before_lem = tt;
        after_lem = matching-nil target ps (cc);
      }
  | inr e ↦
      let rest : IsOnly target ps p = matching-IsOnly target ps p (rw e at h) in
      record {
        before = x ∷ rest.before;
        after = rest.after;
        place_lem = ap (λ t. x ∷ t) rest.place_lem;
        named_lem = rest.named_lem;
        before_lem = (e, rest.before_lem);
        after_lem = rest.after_lem;
      }
]

start_fits : (o : Option String) (s : String) → same_start o s ≡ true → o ≡ some s
start_fits none s h = absurd cc
start_fits (some t) s h = ap some ((eq_iff t s).0 h)

host_started :
    (q : Questions) (p : Peer)
    → host_fits q p ≡ true
    → is_positive p.host_pid ≡ true
    → q.process_start p.host_pid ≡ some p.host_start
host_started q p h k = start_fits (q.process_start p.host_pid) p.host_start (rw k at h)

both : (b c : Bool) → (b && c) ≡ true → (b ≡ true) × (c ≡ true)
both true c h = (refl, h)
both false c h = absurd cc

negated : (b : Bool) → not b ≡ true → b ≡ false
negated true h = absurd cc
negated false h = refl

present-IsVetted :
    (q : Questions) (exclude : ℤ) (file : Bytes) (p : Peer)
    → is_present q exclude file p ≡ true
    → IsVetted q exclude (record p { ref = q.ref_of p.pid p.start })
present-IsVetted q exclude file p h =
    let (_, h1) = both _ _ h in
    let (a, h2) = both _ _ h1 in
    let (b, h3) = both _ _ h2 in
    let (c, h4) = both _ _ h3 in
    let (d, h5) = both _ _ h4 in
    let (e, f) = both _ _ h5 in
    record {
      other_lem = negated _ a;
      protocol_lem = b;
      named_lem = negated _ c;
      verified_lem = d;
      host_lem = host_started q p e;
      address_lem = f;
      ref_lem = refl;
    }

found_peer-IsVetted :
    (q : Questions) (exclude : ℤ) (file : Bytes) (a : Option Peer)
    → All (IsVetted q exclude) (found_peer q exclude file a)
found_peer-IsVetted q exclude file none = tt
found_peer-IsVetted q exclude file (some p) =
    elim (Bool-cases (has_suffix (codes ".json") file && is_present q exclude file p)) [
      | inr e ↦ rw e tt
      | inl e ↦ rw e (present-IsVetted q exclude file p (both _ _ e).1, tt)
    ]

found_peers-IsVetted :
    (q : Questions) (exclude : ℤ) (es : List Entry)
    → All (IsVetted q exclude) (found_peers q exclude es)
found_peers-IsVetted q exclude [] = tt
found_peers-IsVetted q exclude (e ∷ es) =
    All-append (IsVetted q exclude) (found_peer q exclude e.file e.advertised)
      (found_peers q exclude es) (found_peer-IsVetted q exclude e.file e.advertised)
      (found_peers-IsVetted q exclude es)

All-middle :
    (P : Peer → Type 0) (before after : List Peer) (p : Peer) → All P (before ++ p ∷ after) → P p
All-middle P [] after p (h, hs) = h
All-middle P (b ∷ before) after p (h, hs) = All-middle P before after p hs

-- If a target resolves, the registry could be listed, the peer is the only one of those discovered in it
-- that the target names, and it is vetted: not the caller, of the protocol, named, verified by its start
-- and its host's, with the address of a peer and the reference computed for it.
pub resolve-IsOnly :
    (q : Questions) (exclude : ℤ) (registry : Directory) (target : String) (p : Peer)
    → resolve q exclude registry target ≡ some p
    → (es : List Entry) × (registry ≡ listed es)
      × IsOnly target (found_peers q exclude es) p
      × IsVetted q exclude p
unfolding resolve discover
resolve-IsOnly q exclude missing target p h = absurd cc
resolve-IsOnly q exclude unsafe_directory target p h = absurd cc
resolve-IsOnly q exclude (listed es) target p h =
    let ps : List Peer = found_peers q exclude es in
    let one : IsOnly target ps p =
      matching-IsOnly target ps p (only_one (matching target ps) p h) in
    let all : All (IsVetted q exclude) (one.before ++ p ∷ one.after) =
      subst (All (IsVetted q exclude)) one.place_lem (found_peers-IsVetted q exclude es) in
    (es, refl, one, All-middle (IsVetted q exclude) one.before one.after p all)
