-- ===== src/Envelope/Agreement.antt =====
-- protocol.go: the frames that `userFrame` makes are frames that `decodeUser` takes.
use mathlib.Core.Path.{subst}
use cross_session_codex.Common.{
  ℕ, ◌+◌, ◌≤◌, ◌≡◌, refl, sym, ap, ◌∙◌, String, Bool, true, false, not, ◌&&◌, ◌||◌, ◌⊎◌, inl, inr,
  Bool-cases, ltb, str_eq, eq_iff, ◌≢◌, arith, if◌then◌else◌,
}
use cross_session_codex.Json.{Fields, text, get, str, number}
use cross_session_codex.Store.{Message}
use cross_session_codex.Envelope.{
  Framed, framed, unframed, FrameError, max_buffer, max_serialized, envelope, frame_of, user_frame,
  message_of, split_envelope, decode_user,
}

abbrev value_or : Fields → Framed Fields → Fields
value_or d (framed f) = f
value_or d (unframed e) = d

guarded :
    (b₁ b₂ b₃ : Bool) (e₁ e₂ e₃ : FrameError) (g f : Fields)
    → (if b₁ then unframed e₁ else if b₂ then unframed e₂ else if b₃ then unframed e₃ else framed g)
      ≡ framed f
    → (b₁ ≡ false) × (b₂ ≡ false) × (b₃ ≡ false) × (g ≡ f)
guarded true b₂ b₃ e₁ e₂ e₃ g f h = absurd cc
guarded false true b₃ e₁ e₂ e₃ g f h = absurd cc
guarded false false true e₁ e₂ e₃ g f h = absurd cc
guarded false false false e₁ e₂ e₃ g f h = (refl, refl, refl, ap (value_or g) h)

is_class :
    (mode : String)
    → (not (str_eq mode "prompting") && not (str_eq mode "bypass")) ≡ false
    → (mode ≡ "prompting") ⊎ (mode ≡ "bypass")
is_class mode h = elim (Bool-cases (str_eq mode "prompting")) [
  | inl e ↦ inl ((eq_iff mode "prompting").0 e)
  | inr e ↦ inr ((eq_iff mode "bypass").0 (ground (arith, h, e)))
]

in_bounds :
    (b u : ℕ)
    → (ltb max_buffer (b + 1) || ltb max_serialized u) ≡ false
    → (b + 1 ≤ max_buffer) × (u ≤ max_serialized)
in_bounds b u h = (ground (arith, h), ground (arith, h))

module _ (normalize unescape : String → String) (is_uuid : String → Bool)
    (bytes units : Fields → ℕ) where
  decode_user-frame_of :
      (id content address : String)
      → is_uuid id ≡ true
      → decode_user normalize unescape is_uuid bytes units
          (frame_of normalize unescape is_uuid bytes units id content address)
        ≡ framed (
            message_of normalize unescape is_uuid bytes units
              (frame_of normalize unescape is_uuid bytes units id content address)
              content
              (split_envelope content))
  unfolding decode_user frame_of get str number
  decode_user-frame_of id content address h = rw h refl

  user_frame-framed :
      (id body address name mode : String) (f : Fields)
      → user_frame normalize unescape is_uuid bytes units id body address name mode ≡ framed f
      → (body ≢ "")
        × ((mode ≡ "prompting") ⊎ (mode ≡ "bypass"))
        × (bytes f + 1 ≤ max_buffer)
        × (units f ≤ max_serialized)
        × (frame_of normalize unescape is_uuid bytes units id
              (envelope normalize unescape is_uuid bytes units body address name mode)
              address
            ≡ f)
  unfolding user_frame
  user_frame-framed id body address name mode f h =
      let g =
        frame_of normalize unescape is_uuid bytes units id
          (envelope normalize unescape is_uuid bytes units body address name mode) address in
      let (filled, class, small, same) = guarded (str_eq body "") _ _ _ _ _ g f h in
      let bounds = in_bounds (bytes g) (units g) small in
      (
        λ e. ground (arith, filled, e, eq_iff body ""),
        is_class mode class,
        subst (λ k. bytes k + 1 ≤ max_buffer) same bounds.0,
        subst (λ k. units k ≤ max_serialized) same bounds.1,
        same,
      )

-- A frame that `userFrame` makes has a body, one of the two permission classes and a size within both
-- limits, and `decodeUser` takes it: as a message of that id and that sender, with the envelope as it
-- was sent. The UUID is one that uuid.Parse accepts.
pub user_frame-decode_user :
    (normalize unescape : String → String) (is_uuid : String → Bool) (bytes units : Fields → ℕ)
    (id body address name mode : String) (f : Fields)
    → is_uuid id ≡ true
    → user_frame normalize unescape is_uuid bytes units id body address name mode ≡ framed f
    → (body ≢ "")
      × ((mode ≡ "prompting") ⊎ (mode ≡ "bypass"))
      × (bytes f + 1 ≤ max_buffer)
      × (units f ≤ max_serialized)
      × (m : Message) × (decode_user normalize unescape is_uuid bytes units f ≡ framed m)
      × (m.wire_id ≡ id)
      × (m.sender ≡ text address)
      × (m.raw_envelope ≡ envelope normalize unescape is_uuid bytes units body address name mode)
unfolding message_of frame_of str get
user_frame-decode_user normalize unescape is_uuid bytes units id body address name mode f uuid h =
    let (filled, class, b, u, same) =
      user_frame-framed normalize unescape is_uuid bytes units id body address name mode f h in
    let content = envelope normalize unescape is_uuid bytes units body address name mode in
    let g = frame_of normalize unescape is_uuid bytes units id content address in
    (
      filled,
      class,
      b,
      u,
      message_of normalize unescape is_uuid bytes units g content (split_envelope content),
      ap (decode_user normalize unescape is_uuid bytes units) (sym same)
          ∙ decode_user-frame_of normalize unescape is_uuid bytes units id content address uuid,
      refl,
      refl,
      refl,
    )
