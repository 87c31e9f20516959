-- ===== src/Handshake/Consent.antt =====
-- What the parent's answer says when the launcher takes it for a consent.
use cross_session_codex.Common.{
  ℕ, ◌≡◌, ◌≢◌, refl, sym, subst, ap, ◌∙◌, Bool, true, false, not, ◌&&◌, ◌||◌, List, [], ◌∷◌, Option,
  none, some, ◌==◌, ==_iff, Bool-cases, inl, inr, arith, if◌then◌else◌, Bytes, codes,
}
use cross_session_codex.Bytes.{same_bytes, is_nothing}
use cross_session_codex.Bytes.Cut.{same_bytes_eq}
use cross_session_codex.Handshake.{
  Value, number, text, null, other, Document, object, not_object, Continuation, set_v, set_nonce,
  set_action, take_field, is_seen, continue_with, take_fields, proceeds, canceled, failed,
  nothing_read, decide_handoff, read_document,
}

-- The last value of a key that is not null.
abbrev pub values_of : Bytes → List (Bytes × Value) → List Value
values_of key [] = []
values_of key ((k, v) ∷ fields) =
    let rest = values_of key fields in if same_bytes k key then v ∷ rest else rest

abbrev pub is_known : Bytes → Bool
is_known key =
    same_bytes key (codes "v") || same_bytes key (codes "nonce") || same_bytes key (codes "action")

abbrev pub are_known : List (Bytes × Value) → Bool
are_known [] = true
are_known ((k, v) ∷ fields) = is_known k && are_known fields

abbrev pub are_distinct : List (Bytes × Value) → List Bytes → Bool
are_distinct [] seen = true
are_distinct ((k, v) ∷ fields) seen = not (is_seen k seen) && are_distinct fields (k ∷ seen)

-- The parent's answer: one object, with each field at most once and no other field, that repeats the
-- nonce and says to continue.
pub record IsConsent (nonce : Bytes) (fields : List (Bytes × Value)) : Type 0 where
  pub known_lem : are_known fields ≡ true
  pub once_lem : are_distinct fields [] ≡ true
  pub version_lem : values_of (codes "v") fields ≡ number 1 ∷ []
  pub nonce_lem : values_of (codes "nonce") fields ≡ text nonce ∷ []
  pub action_lem : values_of (codes "action") fields ≡ text (codes "continue") ∷ []

abbrev v_after : List Value → ℕ → ℕ
v_after [] v = v
v_after (number n ∷ vs) v = v_after vs n
v_after (text t ∷ vs) v = v_after vs v
v_after (null ∷ vs) v = v_after vs v
v_after (other ∷ vs) v = v_after vs v

abbrev text_after : List Value → Bytes → Bytes
text_after [] t = t
text_after (number n ∷ vs) t = text_after vs t
text_after (text u ∷ vs) t = text_after vs u
text_after (null ∷ vs) t = text_after vs t
text_after (other ∷ vs) t = text_after vs t

-- What reading the fields makes of a continuation.
record Effect (fields : List (Bytes × Value)) (c d : Continuation) : Type 0 where
  known : are_known fields ≡ true
  v_lem : d.v ≡ v_after (values_of (codes "v") fields) c.v
  nonce_lem : d.nonce ≡ text_after (values_of (codes "nonce") fields) c.nonce
  action_lem : d.action ≡ text_after (values_of (codes "action") fields) c.action

module _ (fields : List (Bytes × Value)) (c d e : Continuation) where
  Effect-of : (b : Continuation) → b ≡ e → Effect fields e d → Effect fields b d
  Effect-of b k f = subst (λ (x : Continuation). Effect fields x d) (sym k) f

  after_v :
      (value : Value)
      → set_v value c ≡ some e
      → Effect fields e d
      → Effect ((codes "v", value) ∷ fields) c d
  after_v (number x) h f =
      let g : Effect fields (record c { v = x }) d = Effect-of (record c { v = x }) (cc) f in
      record {
        known = g.known;
        v_lem = g.v_lem;
        nonce_lem = g.nonce_lem;
        action_lem = g.action_lem;
      }
  after_v null h f =
      let g : Effect fields c d = Effect-of c (cc) f in
      record {
        known = g.known;
        v_lem = g.v_lem;
        nonce_lem = g.nonce_lem;
        action_lem = g.action_lem;
      }
  after_v (text x) h f = absurd cc
  after_v other h f = absurd cc

  after_nonce :
      (value : Value)
      → set_nonce value c ≡ some e
      → Effect fields e d
      → Effect ((codes "nonce", value) ∷ fields) c d
  after_nonce (text x) h f =
      let g : Effect fields (record c { nonce = x }) d =
        Effect-of (record c { nonce = x }) (cc) f in
      record {
        known = g.known;
        v_lem = g.v_lem;
        nonce_lem = g.nonce_lem;
        action_lem = g.action_lem;
      }
  after_nonce null h f =
      let g : Effect fields c d = Effect-of c (cc) f in
      record {
        known = g.known;
        v_lem = g.v_lem;
        nonce_lem = g.nonce_lem;
        action_lem = g.action_lem;
      }
  after_nonce (number x) h f = absurd cc
  after_nonce other h f = absurd cc

  after_action :
      (value : Value)
      → set_action value c ≡ some e
      → Effect fields e d
      → Effect ((codes "action", value) ∷ fields) c d
  after_action (text x) h f =
      let g : Effect fields (record c { action = x }) d =
        Effect-of (record c { action = x }) (cc) f in
      record {
        known = g.known;
        v_lem = g.v_lem;
        nonce_lem = g.nonce_lem;
        action_lem = g.action_lem;
      }
  after_action null h f =
      let g : Effect fields c d = Effect-of c (cc) f in
      record {
        known = g.known;
        v_lem = g.v_lem;
        nonce_lem = g.nonce_lem;
        action_lem = g.action_lem;
      }
  after_action (number x) h f = absurd cc
  after_action other h f = absurd cc

  -- A field that is read has one of the three keys.
  after_field :
      (key : Bytes) (value : Value)
      → take_field key value c ≡ some e
      → Effect fields e d
      → Effect ((key, value) ∷ fields) c d
  after_field key value h f = elim (Bool-cases (same_bytes key (codes "v"))) [
    | inl a ↦
        subst (λ (k : Bytes). Effect ((k, value) ∷ fields) c d)
          (sym (same_bytes_eq key (codes "v") a)) (after_v value (rw a at h) f)
    | inr a ↦ elim (Bool-cases (same_bytes key (codes "nonce"))) [
      | inl b ↦
          subst (λ (k : Bytes). Effect ((k, value) ∷ fields) c d)
            (sym (same_bytes_eq key (codes "nonce") b)) (after_nonce value (rw (a, b) at h) f)
      | inr b ↦ elim (Bool-cases (same_bytes key (codes "action"))) [
        | inl k ↦
            subst (λ (x : Bytes). Effect ((x, value) ∷ fields) c d)
              (sym (same_bytes_eq key (codes "action") k))
              (after_action value (rw (a, b, k) at h) f)
        | inr k ↦ let n : none ≡ some e = rw (a, b, k) at h in absurd cc
      ]
    ]
  ]

continued :
    (r : Option Continuation) (rest : Continuation → Option Continuation) (d : Continuation)
    → continue_with r rest ≡ some d
    → (e : Continuation) × (r ≡ some e) × (rest e ≡ some d)
continued none rest d h = absurd cc
continued (some e) rest d h = (e, refl, h)

take_fields-Effect :
    (fields : List (Bytes × Value)) (seen : List Bytes) (c d : Continuation)
    → take_fields fields seen c ≡ some d
    → Effect fields c d × (are_distinct fields seen ≡ true)
unfolding take_fields
take_fields-Effect [] seen c d h =
    let e : c ≡ d = cc in
    (
      subst (λ (x : Continuation). Effect [] c x) e
          (record { known = refl; v_lem = refl; nonce_lem = refl; action_lem = refl }),
      refl,
    )
take_fields-Effect ((key, value) ∷ fields) seen c d h = elim (Bool-cases (is_seen key seen)) [
  | inl s ↦ let n : none ≡ some d = rw s at h in absurd cc
  | inr s ↦
      let (e, k, m) =
        continued (take_field key value c) (λ x. take_fields fields (key ∷ seen) x) d (rw s at h) in
      let (f, t) = take_fields-Effect fields (key ∷ seen) e d m in
      (after_field fields c d e key value k f, rw s t)
]

-- A key that was seen has no further value, and every key has at most one.
values_of-seen :
    (key : Bytes) (fields : List (Bytes × Value)) (seen : List Bytes)
    → is_seen key seen ≡ true
    → are_distinct fields seen ≡ true
    → values_of key fields ≡ []
values_of-seen key [] seen s h = refl
values_of-seen key ((k, v) ∷ fields) seen s h = elim (Bool-cases (same_bytes k key)) [
  | inl e ↦
      let same : is_seen k seen ≡ true =
        subst (λ (x : Bytes). is_seen x seen ≡ true) (sym (same_bytes_eq k key e)) s in
      absurd (ground arith)
  | inr e ↦ rw e (values_of-seen key fields (k ∷ seen) (ground arith) (ground arith))
]

data AtMostOne : List Value → Type 0 where
  nothing : AtMostOne []
  one : (v : Value) → AtMostOne (v ∷ [])

values_of-AtMostOne :
    (key : Bytes) (fields : List (Bytes × Value)) (seen : List Bytes)
    → are_distinct fields seen ≡ true
    → AtMostOne (values_of key fields)
values_of-AtMostOne key [] seen h = nothing
values_of-AtMostOne key ((k, v) ∷ fields) seen h = elim (Bool-cases (same_bytes k key)) [
  | inl e ↦
      let rest : values_of key fields ≡ [] =
        values_of-seen key fields (k ∷ seen) (ground arith) (ground arith) in
      rw (e, rest) (one v)
  | inr e ↦ rw e (values_of-AtMostOne key fields (k ∷ seen) (ground arith))
]

lone_number : (v : Value) → v_after (v ∷ []) 0 ≡ 1 → v ∷ [] ≡ number 1 ∷ []
lone_number (number n) h = ap (λ x. number x ∷ []) h
lone_number (text t) h = absurd (omega arith)
lone_number null h = absurd (omega arith)
lone_number other h = absurd (omega arith)

only_number : (vs : List Value) → AtMostOne vs → v_after vs 0 ≡ 1 → vs ≡ number 1 ∷ []
only_number vs nothing h = absurd (omega arith)
only_number vs (one v) h = lone_number v h

not_empty : (t : Bytes) → is_nothing t ≡ false → [] ≢ t
not_empty [] n h = cc
not_empty (b ∷ bs) n h = cc

lone_text :
    (v : Value) (t : Bytes)
    → is_nothing t ≡ false
    → text_after (v ∷ []) [] ≡ t
    → v ∷ [] ≡ text t ∷ []
lone_text (text u) t n h = ap (λ x. text x ∷ []) h
lone_text (number u) t n h = absurd (not_empty t n h)
lone_text null t n h = absurd (not_empty t n h)
lone_text other t n h = absurd (not_empty t n h)

only_text :
    (vs : List Value) (t : Bytes)
    → AtMostOne vs
    → is_nothing t ≡ false
    → text_after vs [] ≡ t
    → vs ≡ text t ∷ []
only_text vs t nothing n h = absurd (not_empty t n h)
only_text vs t (one v) n h = lone_text v t n h

both_left : (b c : Bool) → (b && c) ≡ true → b ≡ true
both_left b c h = ground arith

both_right : (b c : Bool) → (b && c) ≡ true → c ≡ true
both_right b c h = ground arith

-- A continuation that lets the launcher proceed.
decide_handoff-proceeds :
    (nonce : Bytes) (r : Option Continuation)
    → decide_handoff nonce r ≡ proceeds
    → (d : Continuation) × (r ≡ some d)
      × (d.v ≡ 1)
      × (d.nonce ≡ nonce)
      × (d.action ≡ codes "continue")
decide_handoff-proceeds nonce none h = absurd cc
decide_handoff-proceeds nonce (some d) h =
    elim (Bool-cases (d.v == 1 && same_bytes d.nonce nonce)) [
      | inr e ↦ let k : failed ≡ proceeds = rw e at h in absurd cc
      | inl e ↦ elim (Bool-cases (same_bytes d.action (codes "continue"))) [
        | inl a ↦ (
          d,
          refl,
          (==_iff d.v 1).0 (both_left _ _ e),
          same_bytes_eq d.nonce nonce (both_right _ _ e),
          same_bytes_eq d.action (codes "continue") a,
        )
        | inr a ↦ elim (Bool-cases (same_bytes d.action (codes "cancel"))) [
          | inl b ↦ let k : canceled ≡ proceeds = rw (e, a, b) at h in absurd cc
          | inr b ↦ let k : failed ≡ proceeds = rw (e, a, b) at h in absurd cc
        ]
      ]
    ]

pub read_document-IsConsent :
    (nonce : Bytes) (document : Document)
    → is_nothing nonce ≡ false
    → read_document nonce document ≡ proceeds
    → (fields : List (Bytes × Value)) × (document ≡ object fields true) × IsConsent nonce fields
read_document-IsConsent nonce not_object n h = absurd cc
read_document-IsConsent nonce (object fields false) n h = absurd cc
read_document-IsConsent nonce (object fields true) n h =
    let (d, e, v, t, a) = decide_handoff-proceeds nonce (take_fields fields [] nothing_read) h in
    let (f, once) = take_fields-Effect fields [] nothing_read d e in
    let few = λ (key : Bytes). values_of-AtMostOne key fields [] once in
    (
      fields,
      refl,
      record {
        known_lem = f.known;
        once_lem = once;
        version_lem =
            only_number (values_of (codes "v") fields) (few (codes "v")) (sym f.v_lem ∙ v);
        nonce_lem =
            only_text (values_of (codes "nonce") fields) nonce (few (codes "nonce")) n
              (sym f.nonce_lem ∙ t);
        action_lem =
            only_text (values_of (codes "action") fields) (codes "continue") (few (codes "action"))
              refl (sym f.action_lem ∙ a);
      },
    )
