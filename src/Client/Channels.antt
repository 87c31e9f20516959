-- ===== src/Client/Channels.antt =====
-- When the calls of a client are served: what their channels hold.
use cross_session_codex.Common.{
  ℕ, suc, ◌≡◌, refl, Bool, true, false, ◌||◌, List, [], ◌∷◌, Option, none, some, ◌==◌, ==_iff, leb,
  arith, Bool-cases, inl, inr, All,
}
use cross_session_codex.Client.{
  Answer, result, error, lost, Waiting, Client, member, remove, without,
}

abbrev pub is_empty : Option Answer → Bool
is_empty none = true
is_empty (some a) = false

-- The answer is the one for the call with the id.
abbrev pub belongs : ℕ → Answer → Bool
belongs id (result i r) = i == id
belongs id (error i e) = i == id
belongs id lost = true

abbrev pub channel_belongs : ℕ → Option Answer → Bool
channel_belongs id none = true
channel_belongs id (some a) = belongs id a

abbrev pub held_for : ℕ → Option (ℕ × Answer) → Bool
held_for id none = false
held_for id (some (i, a)) = i == id

-- A call of a client: its channel is empty exactly while its reply is pending or in hand, and what is
-- in it is its own answer.
pub record IsServedBy (pending : List ℕ) (hand : Option (ℕ × Answer)) (next : ℕ) (w : Waiting)
    : Type 0 where
  pub empty_lem : is_empty w.channel ≡ (member w.id pending || held_for w.id hand)
  pub own_lem : channel_belongs w.id w.channel ≡ true
  pub old_lem : leb w.id next ≡ true

abbrev pub HandFits : Client → Option (ℕ × Answer) → Type 0
HandFits c none = Unit {0}
HandFits c (some (i, a)) =
    (belongs i a ≡ true) × (member i c.pending ≡ false) × (leb i c.next ≡ true)

pub record IsServed (c : Client) : Type 0 where
  pub calls_lem : All (IsServedBy c.pending c.hand c.next) c.calls
  pub pending_lem : All (λ p. leb p c.next ≡ true) c.pending
  pub hand_lem : HandFits c c.hand
  pub closed_lem : c.closed ≡ true → c.pending ≡ []

pub member-remove_same : (id : ℕ) (ps : List ℕ) → member id (remove id ps) ≡ false
member-remove_same id [] = refl
member-remove_same id (p ∷ ps) = ground (arith, member-remove_same id ps)

pub member-remove_other :
    (i id : ℕ) (ps : List ℕ) → (i == id) ≡ false → member i (remove id ps) ≡ member i ps
member-remove_other i id [] h = refl
member-remove_other i id (p ∷ ps) h =
    ground (arith, member-remove_other i id ps h, ==_iff p id, ==_iff p i, ==_iff i id)

pub member-remove_none :
    (i id : ℕ) (ps : List ℕ) → member i ps ≡ false → member i (remove id ps) ≡ false
member-remove_none i id [] h = refl
member-remove_none i id (p ∷ ps) h = ground (arith, member-remove_none i id ps)

pub remove-old :
    (id next : ℕ) (ps : List ℕ)
    → All (λ p. leb p next ≡ true) ps
    → All (λ p. leb p next ≡ true) (remove id ps)
remove-old id next [] h = tt
remove-old id next (p ∷ ps) (h, hs) = elim (Bool-cases (p == id)) [
  | inl e ↦ rw e (remove-old id next ps hs)
  | inr e ↦ rw e (h, remove-old id next ps hs)
]

pub member-old :
    (i next : ℕ) (ps : List ℕ)
    → All (λ p. leb p next ≡ true) ps
    → member i ps ≡ true
    → leb i next ≡ true
member-old i next [] h m = absurd cc
member-old i next (p ∷ ps) (h, hs) m = ground (arith, h, member-old i next ps hs, ==_iff p i)

pub old-suc :
    (next : ℕ) (ps : List ℕ)
    → All (λ p. leb p next ≡ true) ps
    → All (λ p. leb p (suc next) ≡ true) ps
old-suc next [] h = tt
old-suc next (p ∷ ps) (h, hs) = (ground arith, old-suc next ps hs)

-- The calls that stay, after the same change of what is pending.
pub without-All :
    {P Q : Waiting → Type 0}
    → (id : ℕ) (ws : List Waiting) → ((w : Waiting) → (w.id == id) ≡ false → P w → Q w)
    → All P ws
    → All Q (without id ws)
without-All id [] f h = tt
without-All id (w ∷ ws) f (h, hs) = elim (Bool-cases (w.id == id)) [
  | inl e ↦ rw e (without-All id ws f hs)
  | inr e ↦ rw e (f w e h, without-All id ws f hs)
]
