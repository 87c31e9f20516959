-- ===== src/Handshake/Pipes.antt =====
-- What the two loops of the handoff move: a whole frame, within its bound, or nothing that counts.
use cross_session_codex.Common.{
  ℕ, zero, suc, ◌+◌, ◌≡◌, refl, sym, subst, ap, ◌∙◌, Bool, true, false, not, ◌&&◌, List, [], ◌∷◌,
  ◌++◌, append_assoc, append-nil, length-append, Option, none, some, ltb, leb, Bool-cases, inl, inr,
  ◌↔◌, arith, if◌then◌else◌, length, take, drop, Bytes,
}
use cross_session_codex.Bytes.{is_nothing}
use cross_session_codex.Handshake.{
  max_frame, Fault, no_fault, interrupted, would_block, broken, Round, cancelled, moved, Written,
  written, not_written, after_write, with_sent, write_frame, received, too_long, after_read,
  read_frame,
}

-- What the parent sends until it closes its end, where every round up to there goes on.
abbrev pub ends_reading : Fault → Bytes → Bool
ends_reading no_fault [] = true
ends_reading _ _ = false

abbrev pub stops_reading : Fault → Bool
stops_reading (would_block false) = true
stops_reading broken = true
stops_reading _ = false

abbrev pub joined_to : Bytes → Option Bytes → Option Bytes
joined_to b none = none
joined_to b (some bs) = some (b ++ bs)

abbrev pub transmitted : List (Round Bytes) → Option Bytes
transmitted [] = none
transmitted (cancelled ∷ rounds) = none
transmitted (moved new f ∷ rounds) =
    let rest = transmitted rounds in
    if stops_reading f then none else if ends_reading f new then some [] else joined_to new rest

abbrev Complete : List (Round Bytes) → Bytes → Bytes → Type 0
Complete rounds frame got =
    (t : Bytes) × (transmitted rounds ≡ some t)
    × (got ≡ frame ++ t)
    × (leb (length got) max_frame ≡ true)

-- The test that a read makes before its bytes count.
abbrev overflows : Bytes → Bytes → Bool
overflows frame new = not (is_nothing new) && ltb max_frame (length frame + length new)

bound_on :
    (frame new : Bytes)
    → leb (length frame) max_frame ≡ true
    → overflows frame new ≡ false
    → leb (length (frame ++ new)) max_frame ≡ true
bound_on frame [] b e = rw (append-nil frame) b
bound_on frame (n ∷ ns) b e = ground (arith, e, length-append frame (n ∷ ns))

not_over :
    (frame new t : Bytes)
    → leb (length (frame ++ new ++ t)) max_frame ≡ true
    → overflows frame new ≡ false
not_over frame [] t b = refl
not_over frame (n ∷ ns) t b =
    ground (arith, b, length-append (frame ++ n ∷ ns) t, length-append frame (n ∷ ns))

joined :
    (rounds : List (Round Bytes)) (frame new got : Bytes)
    → Complete rounds (frame ++ new) got
    → (t : Bytes) × (joined_to new (transmitted rounds) ≡ some t)
      × (got ≡ frame ++ t)
      × (leb (length got) max_frame ≡ true)
joined rounds frame new got (t, e, g, b) =
    (new ++ t, ap (joined_to new) e, g ∙ append_assoc frame new t, b)

-- Reading on from a frame within the bound.
received_then :
    (rounds : List (Round Bytes)) (frame new got : Bytes) (f : Fault)
    → leb (length (frame ++ new)) max_frame ≡ true
    → (read_frame rounds (frame ++ new) ≡ received got → Complete rounds (frame ++ new) got)
    → after_read f new (frame ++ new) (read_frame rounds (frame ++ new)) ≡ received got
    → Complete (moved new f ∷ rounds) frame got
received_then rounds frame new got broken b ih h = absurd cc
received_then rounds frame new got (would_block false) b ih h = absurd cc
received_then rounds frame new got interrupted b ih h = joined rounds frame new got (ih h)
received_then rounds frame new got (would_block true) b ih h = joined rounds frame new got (ih h)
received_then rounds frame [] got no_fault b ih h =
    let e : frame ++ [] ≡ got = cc in
    ([], refl, sym e, subst (λ (x : Bytes). leb (length x) max_frame ≡ true) e b)
received_then rounds frame (n ∷ ns) got no_fault b ih h = joined rounds frame (n ∷ ns) got (ih h)

read_frame-received :
    (rounds : List (Round Bytes)) (frame got : Bytes)
    → leb (length frame) max_frame ≡ true
    → read_frame rounds frame ≡ received got
    → Complete rounds frame got
unfolding read_frame
read_frame-received [] frame got b h = absurd cc
read_frame-received (cancelled ∷ rounds) frame got b h = absurd cc
read_frame-received (moved new f ∷ rounds) frame got b h = elim (Bool-cases (overflows frame new)) [
  | inl e ↦ let k : too_long ≡ received got = rw e at h in absurd cc
  | inr e ↦
      let on : leb (length (frame ++ new)) max_frame ≡ true = bound_on frame new b e in
      received_then rounds frame new got f on (read_frame-received rounds (frame ++ new) got on)
        (rw e at h)
]

joined_some :
    (new t : Bytes) (o : Option Bytes)
    → joined_to new o ≡ some t
    → (u : Bytes) × (o ≡ some u) × (t ≡ new ++ u)
joined_some new t none h = absurd cc
joined_some new t (some u) h = (u, refl, cc)

-- A round that goes on.
on :
    (rounds : List (Round Bytes)) (frame new t : Bytes)
    → ((u : Bytes)
        → transmitted rounds ≡ some u
        → leb (length ((frame ++ new) ++ u)) max_frame ≡ true
        → read_frame rounds (frame ++ new) ≡ received ((frame ++ new) ++ u))
    → joined_to new (transmitted rounds) ≡ some t
    → leb (length (frame ++ t)) max_frame ≡ true
    → (overflows frame new ≡ false) × (read_frame rounds (frame ++ new) ≡ received (frame ++ t))
on rounds frame new t ih h b =
    let (u, e, g) = joined_some new t (transmitted rounds) h in
    let same : frame ++ t ≡ (frame ++ new) ++ u =
      ap (λ (x : Bytes). frame ++ x) g ∙ sym (append_assoc frame new u) in
    let c : leb (length ((frame ++ new) ++ u)) max_frame ≡ true =
      subst (λ (x : Bytes). leb (length x) max_frame ≡ true) same b in
    (not_over frame new u c, ih u e c ∙ ap received (sym same))

-- The rounds that follow, where this one goes on.
transmitted_then :
    (rounds : List (Round Bytes)) (frame new t : Bytes) (f : Fault)
    → ((u : Bytes)
        → transmitted rounds ≡ some u
        → leb (length ((frame ++ new) ++ u)) max_frame ≡ true
        → read_frame rounds (frame ++ new) ≡ received ((frame ++ new) ++ u))
    → transmitted (moved new f ∷ rounds) ≡ some t
    → leb (length (frame ++ t)) max_frame ≡ true
    → (overflows frame new ≡ false)
      × (after_read f new (frame ++ new) (read_frame rounds (frame ++ new)) ≡ received (frame ++ t))
transmitted_then rounds frame new t broken ih h b = absurd cc
transmitted_then rounds frame new t (would_block false) ih h b = absurd cc
transmitted_then rounds frame [] t no_fault ih h b =
    let e : [] ≡ t = cc in (refl, ap (λ (x : Bytes). received (frame ++ x)) e)
transmitted_then rounds frame new t interrupted ih h b = on rounds frame new t ih h b
transmitted_then rounds frame new t (would_block true) ih h b = on rounds frame new t ih h b
transmitted_then rounds frame (n ∷ ns) t no_fault ih h b = on rounds frame (n ∷ ns) t ih h b

transmitted-read_frame :
    (rounds : List (Round Bytes)) (frame t : Bytes)
    → transmitted rounds ≡ some t
    → leb (length (frame ++ t)) max_frame ≡ true
    → read_frame rounds frame ≡ received (frame ++ t)
unfolding read_frame
transmitted-read_frame [] frame t h b = absurd cc
transmitted-read_frame (cancelled ∷ rounds) frame t h b = absurd cc
transmitted-read_frame (moved new f ∷ rounds) frame t h b =
    let (e, k) =
      transmitted_then rounds frame new t f (λ u. transmitted-read_frame rounds (frame ++ new) u) h
        b in
    rw e k

-- The loop returns a frame exactly where the parent sent it, in whatever pieces and with whatever
-- interruptions and waits that end well, and closed its end, and the frame has at most 8192 bytes.
pub read_frame_iff :
    (rounds : List (Round Bytes)) (got : Bytes)
    → (read_frame rounds [] ≡ received got)
      ↔ ((transmitted rounds ≡ some got) × (leb (length got) max_frame ≡ true))
read_frame_iff rounds got = (
  λ h. let (t, e, g, b) = read_frame-received rounds [] got refl h in (e ∙ ap some (sym g), b),
  λ (e, b). transmitted-read_frame rounds [] got e b,
)

take-drop : (n : ℕ) (xs : Bytes) → take n xs ++ drop n xs ≡ xs
take-drop zero xs = refl
take-drop (suc n) [] = refl
take-drop (suc n) (x ∷ xs) = ap (λ t. x ∷ t) (take-drop n xs)

-- What is written is the front of the frame, and all of it where the loop says so.
abbrev pub IsFront : Written × Bytes → Bytes → Type 0
IsFront r frame = (left : Bytes) × (r.1 ++ left ≡ frame) × (r.0 ≡ written → left ≡ [])

IsFront-on :
    (n : ℕ) (frame : Bytes) (rest : Written × Bytes)
    → IsFront rest (drop n frame)
    → IsFront (with_sent (take n frame) rest) frame
IsFront-on n frame (w, sent) (left, e, d) = (
  left,
  append_assoc (take n frame) sent left ∙ (ap (λ t. take n frame ++ t) e ∙ take-drop n frame),
  d,
)

IsFront-stop : (n : ℕ) (frame : Bytes) → IsFront (with_sent (take n frame) (not_written, [])) frame
IsFront-stop n frame = (
  drop n frame,
  append_assoc (take n frame) [] (drop n frame) ∙ take-drop n frame,
  λ h. absurd cc,
)

IsFront-then :
    (n : ℕ) (frame : Bytes) (f : Fault) (rest : Written × Bytes)
    → IsFront rest (drop n frame)
    → IsFront (with_sent (take n frame) (after_write f n rest)) frame
IsFront-then n frame interrupted rest h = IsFront-on n frame rest h
IsFront-then n frame (would_block true) rest h = IsFront-on n frame rest h
IsFront-then n frame (would_block false) rest h = IsFront-stop n frame
IsFront-then n frame broken rest h = IsFront-stop n frame
IsFront-then zero frame no_fault rest h = IsFront-stop zero frame
IsFront-then (suc n) frame no_fault rest h = IsFront-on (suc n) frame rest h

pub write_frame-IsFront :
    (rounds : List (Round ℕ)) (frame : Bytes) → IsFront (write_frame rounds frame) frame
unfolding write_frame
write_frame-IsFront rounds [] = ([], refl, λ h. refl)
write_frame-IsFront [] (b ∷ bs) = (b ∷ bs, refl, λ h. absurd cc)
write_frame-IsFront (cancelled ∷ rounds) (b ∷ bs) = (b ∷ bs, refl, λ h. absurd cc)
write_frame-IsFront (moved n f ∷ rounds) (b ∷ bs) =
    IsFront-then n (b ∷ bs) f (write_frame rounds (drop n (b ∷ bs)))
      (write_frame-IsFront rounds (drop n (b ∷ bs)))
