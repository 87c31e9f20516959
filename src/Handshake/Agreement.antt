-- ===== src/Handshake/Agreement.antt =====
-- When a launcher proceeds: both sides have said what the protocol asks of them.
use cross_session_codex.Common.{
  ◌≡◌, refl, sym, subst, ap, ◌∙◌, Bool, true, false, not, ◌||◌, List, [], ◌∷◌, ◌++◌, append-nil,
  Option, none, some, ltb, arith, if◌then◌else◌, length, Bytes,
}
use cross_session_codex.Bytes.{is_nothing, has_byte, cut_first}
use cross_session_codex.Bytes.Cut.{cut_first-some}
use cross_session_codex.Handshake.{
  max_frame, Written, written, not_written, writing, write_frame, Received, received, not_received,
  too_long, reading, read_frame, Value, Document, object, proceeds, read_document, one_line,
  of_line, of_received, Ready, is_complete, Surroundings, Ending, after_ready, send_ready, exchange,
}
use cross_session_codex.Handshake.Pipes.{read_frame_iff, transmitted, write_frame-IsFront, IsFront}
use cross_session_codex.Handshake.Consent.{IsConsent, read_document-IsConsent}

-- Both sides of a handoff have said what the protocol asks of them.
pub record IsAgreed (o : Surroundings) (r : Ready) (sent : Bytes) : Type 0 where
  pub nonce : Bytes
  pub line : Bytes
  pub fields : List (Bytes × Value)
  pub drawn_lem : o.nonce ≡ some nonce
  pub complete_lem : is_complete o.canonical r ≡ true
  pub sent_lem : sent ≡ o.encode r nonce ++ 10 ∷ []
  pub bound_lem : ltb max_frame (length sent) ≡ false
  pub answer_lem : transmitted o.reads ≡ some (line ++ 10 ∷ [])
  pub line_lem : has_byte 10 line ≡ false
  pub decoded_lem : o.decode line ≡ object fields true
  pub consent_lem : IsConsent nonce fields

one_line-some :
    (r : Option (Bytes × Bytes)) (line : Bytes) → one_line r ≡ some line → r ≡ some (line, [])
one_line-some none line h = absurd cc
one_line-some (some (l, [])) line h = cc
one_line-some (some (l, b ∷ bs)) line h = absurd cc

of_line-some :
    (decode : Bytes → Document) (nonce : Bytes) (r : Option Bytes)
    → of_line decode nonce r ≡ proceeds
    → (line : Bytes) × (r ≡ some line) × (read_document nonce (decode line) ≡ proceeds)
of_line-some decode nonce none h = absurd cc
of_line-some decode nonce (some line) h = (line, refl, h)

abbrev Answered : (Bytes → Document) → Bytes → Received → Type 0
Answered decode nonce r =
    (line : Bytes) × (r ≡ received (line ++ 10 ∷ []))
    × (has_byte 10 line ≡ false)
    × (read_document nonce (decode line) ≡ proceeds)

of_received-Answered :
    (decode : Bytes → Document) (nonce : Bytes) (r : Received)
    → of_received decode nonce r ≡ proceeds
    → Answered decode nonce r
of_received-Answered decode nonce (received []) h = absurd cc
of_received-Answered decode nonce not_received h = absurd cc
of_received-Answered decode nonce too_long h = absurd cc
of_received-Answered decode nonce reading h = absurd cc
of_received-Answered decode nonce (received (b ∷ bs)) h =
    let (line, e, k) = of_line-some decode nonce (one_line (cut_first 10 (b ∷ bs))) h in
    let (t, clean) =
      cut_first-some 10 (b ∷ bs) line [] (one_line-some (cut_first 10 (b ∷ bs)) line e) in
    (line, ap received t, clean, k)

module _ (o : Surroundings) (r : Ready)
    (drawn : (n : Bytes) → o.nonce ≡ some n → is_nothing n ≡ false) where
  abbrev Agrees : Ending → Type 0
  Agrees x = x.outcome ≡ proceeds → IsAgreed o r x.sent

  agreed_if :
      (b : Bool) (x y : Ending)
      → (b ≡ true → Agrees x)
      → (b ≡ false → Agrees y)
      → Agrees (if b then x else y)
  agreed_if true x y f g = f refl
  agreed_if false x y f g = g refl

  after_ready-IsAgreed :
      (nonce : Bytes) (w : Written × Bytes)
      → o.nonce ≡ some nonce
      → is_complete o.canonical r ≡ true
      → ltb max_frame (length (o.encode r nonce ++ 10 ∷ [])) ≡ false
      → IsFront w (o.encode r nonce ++ 10 ∷ [])
      → (after_ready o nonce w).outcome ≡ proceeds
      → IsAgreed o r (after_ready o nonce w).sent
  after_ready-IsAgreed nonce (not_written, sent) e c b f h = absurd cc
  after_ready-IsAgreed nonce (writing, sent) e c b f h = absurd cc
  after_ready-IsAgreed nonce (written, sent) e c b (left, front, all) h =
      let (line, got, clean, reads) =
        of_received-Answered o.decode nonce (read_frame o.reads []) h in
      let (fields, document, consent) =
        read_document-IsConsent nonce (o.decode line) (drawn nonce e) reads in
      let whole : sent ≡ o.encode r nonce ++ 10 ∷ [] =
        sym (append-nil sent) ∙ (ap (λ t. sent ++ t) (sym (all refl)) ∙ front) in
      record {
        nonce = nonce;
        line = line;
        fields = fields;
        drawn_lem = e;
        complete_lem = c;
        sent_lem = whole;
        bound_lem = subst (λ (t : Bytes). ltb max_frame (length t) ≡ false) (sym whole) b;
        answer_lem = ((read_frame_iff o.reads (line ++ 10 ∷ [])).0 got).0;
        line_lem = clean;
        decoded_lem = document;
        consent_lem = consent;
      }

  send_ready-IsAgreed :
      (m : Option Bytes)
      → o.nonce ≡ m
      → is_complete o.canonical r ≡ true
      → (send_ready o r m).outcome ≡ proceeds
      → IsAgreed o r (send_ready o r m).sent
  send_ready-IsAgreed none e c h = absurd cc
  send_ready-IsAgreed (some nonce) e c h =
      let frame : Bytes = o.encode r nonce ++ 10 ∷ [] in
      agreed_if (ltb max_frame (length frame)) _ _ (λ b k. absurd cc)
        (λ b k.
          after_ready-IsAgreed nonce (write_frame o.writes frame) e c b
            (write_frame-IsFront o.writes frame) k)
        h

  IsAgreed-exchange :
      (closed : Bool)
      → (exchange o closed r).outcome ≡ proceeds
      → IsAgreed o r (exchange o closed r).sent
  unfolding exchange
  IsAgreed-exchange closed h =
      agreed_if closed _ _ (λ b k. absurd cc)
        (λ b k.
          agreed_if (o.done || not (is_complete o.canonical r)) _ _ (λ c k. absurd cc)
            (λ c k. send_ready-IsAgreed o.nonce refl (ground arith) k) k)
        h

-- The launcher proceeds only if its readiness was complete and was written whole, in a frame of at most
-- 8192 bytes, and the parent then sent one line and closed its end, and that line is an object whose
-- fields are known, occur once, and are the version, the nonce of this readiness and the word to
-- continue; where a drawn nonce is not empty.
pub exchange-IsAgreed :
    (o : Surroundings) (closed : Bool) (r : Ready)
    → ((n : Bytes) → o.nonce ≡ some n → is_nothing n ≡ false)
    → (exchange o closed r).outcome ≡ proceeds
    → IsAgreed o r (exchange o closed r).sent
exchange-IsAgreed o closed r drawn h = IsAgreed-exchange o r drawn closed h
