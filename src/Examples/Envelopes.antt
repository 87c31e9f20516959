-- ===== src/Examples/Envelopes.antt =====
-- The theorem about the frames of internal/bridge/protocol.go, applied to a short message.
use cross_session_codex.Common.{◌+◌, ◌≤◌, ◌≡◌, ◌≢◌, ◌⊎◌, refl, String, Bool, true, ℕ}
use cross_session_codex.Json.{Fields, text}
use cross_session_codex.Store.{Message}
use cross_session_codex.Envelope.{
  framed, max_buffer, max_serialized, envelope, frame_of, user_frame, decode_user,
}
use cross_session_codex.Envelope.Agreement.{user_frame-decode_user}

abbrev same_text : String → String
same_text s = s

abbrev any_id : String → Bool
any_id s = true

abbrev hundred : Fields → ℕ
hundred f = 100

abbrev hello : String
hello = "hello"

abbrev bypass : String
bypass = "bypass"

abbrev frame : Fields
frame =
    frame_of same_text same_text any_id hundred hundred "id"
      (envelope same_text same_text any_id hundred hundred "hello" "uds:/s" "me" "bypass") "uds:/s"

user_frame-decode_user_example :
    (hello ≢ "")
    × ((bypass ≡ "prompting") ⊎ (bypass ≡ "bypass"))
    × (100 + 1 ≤ max_buffer)
    × (100 ≤ max_serialized)
    × (m : Message) × (decode_user same_text same_text any_id hundred hundred frame ≡ framed m)
    × (m.wire_id ≡ "id")
    × (m.sender ≡ text "uds:/s")
    × (m.raw_envelope
        ≡ envelope same_text same_text any_id hundred hundred "hello" "uds:/s" "me" "bypass")
unfolding user_frame
user_frame-decode_user_example =
    user_frame-decode_user same_text same_text any_id hundred hundred "id" "hello" "uds:/s" "me"
      "bypass" frame refl refl
