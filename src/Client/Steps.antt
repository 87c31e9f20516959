-- ===== src/Client/Steps.antt =====
-- Every step of a client keeps its calls served.
use cross_session_codex.Common.{
  if_elim, ℕ, suc, ◌≡◌, refl, sym, ap, true, false, not, ◌&&◌, ◌||◌, List, [], ◌∷◌, Option, none,
  some, ◌==◌, ==_iff, arith, Bool-cases, inl, inr, if◌then◌else◌, String, str_eq, All, All-map,
}
use cross_session_codex.Client.{
  Answer, lost, Waiting, Client, member, remove, begin_call, lose, fail, end_call, channel_of,
  take_answer, Incoming, completed, notified, reply, answer_of, is_watched, read_message,
  receive_message, fill_channel, put_answer, watch,
}
use cross_session_codex.Client.Channels.{
  is_empty, belongs, held_for, IsServedBy, HandFits, IsServed, member-remove_same,
  member-remove_other, member-remove_none, remove-old, member-old, old-suc, without-All,
}

module _ (c : Client) (ok : IsServed c) where
  abbrev By : Waiting → Type 0
  By = IsServedBy c.pending c.hand c.next

  HandFits-remove :
      (id : ℕ) (hand : Option (ℕ × Answer)) → HandFits c hand → HandFits (end_call id c) hand
  unfolding end_call
  HandFits-remove id none h = tt
  HandFits-remove id (some (i, a)) (b, m, o) = (b, member-remove_none i id c.pending m, o)

  pub end_call-IsServed : (id : ℕ) → IsServed (end_call id c)
  unfolding end_call
  end_call-IsServed id = record {
    calls_lem =
        without-All id c.calls
          (λ w e h. record {
            empty_lem = rw (member-remove_other w.id id c.pending e) h.empty_lem;
            own_lem = h.own_lem;
            old_lem = h.old_lem;
          })
          ok.calls_lem;
    pending_lem = remove-old id c.next c.pending ok.pending_lem;
    hand_lem = HandFits-remove id c.hand ok.hand_lem;
    closed_lem = λ e. ap (remove id) (ok.closed_lem e);
  }

  begun : (w : Waiting) → By w → IsServedBy (suc c.next ∷ c.pending) c.hand (suc c.next) w
  begun w h =
      let other : (suc c.next == w.id) ≡ false =
        ground (arith, h.old_lem, ==_iff (suc c.next) w.id) in
      record {
        empty_lem = rw other h.empty_lem;
        own_lem = h.own_lem;
        old_lem = ground (arith, h.old_lem);
      }

  HandFits-begun :
      (hand : Option (ℕ × Answer))
      → HandFits c hand
      → HandFits (record c { next = suc c.next; pending = suc c.next ∷ c.pending }) hand
  HandFits-begun none h = tt
  HandFits-begun (some (i, a)) (b, m, o) = (b, ground (arith, ==_iff (suc c.next) i), ground arith)

  pub begin_call-IsServed : IsServed (begin_call c).1
  unfolding begin_call
  begin_call-IsServed =
      if_elim (λ (r : Option ℕ × Client). IsServed r.1) c.closed _ _ (λ e. ok)
        (λ e. record {
          calls_lem = (
            record { empty_lem = ground arith; own_lem = refl; old_lem = ground arith },
            All-map begun c.calls ok.calls_lem,
          );
          pending_lem = (ground arith, old-suc c.next c.pending ok.pending_lem);
          hand_lem = HandFits-begun c.hand ok.hand_lem;
          closed_lem = λ k. absurd cc;
        })

  -- What is pending is not in hand.
  pending-held_for :
      (i : ℕ) (hand : Option (ℕ × Answer))
      → HandFits c hand
      → member i c.pending ≡ true
      → held_for i hand ≡ false
  pending-held_for i none h m = refl
  pending-held_for i (some (j, a)) (b, n, o) m = ground (arith, ==_iff j i)

  lost_or_kept :
      (w : Waiting)
      → By w
      → IsServedBy [] c.hand c.next
          (if member w.id c.pending then record w { channel = some lost } else w)
  lost_or_kept w h =
      if_elim (IsServedBy [] c.hand c.next) (member w.id c.pending) _ _
        (λ e. record {
          empty_lem = sym (pending-held_for w.id c.hand ok.hand_lem e);
          own_lem = refl;
          old_lem = h.old_lem;
        })
        (λ e. record {
          empty_lem = ground (arith, h.empty_lem, e);
          own_lem = h.own_lem;
          old_lem = h.old_lem;
        })

  lose-IsServed :
      (ws : List Waiting) → All By ws → All (IsServedBy [] c.hand c.next) (lose c.pending ws)
  lose-IsServed [] h = tt
  lose-IsServed (w ∷ ws) (h, hs) = (lost_or_kept w h, lose-IsServed ws hs)

  HandFits-lost :
      (hand : Option (ℕ × Answer)) → HandFits c hand → HandFits (record c { pending = [] }) hand
  HandFits-lost none h = tt
  HandFits-lost (some (i, a)) (b, m, o) = (b, refl, o)

  pub fail-IsServed : IsServed (fail c)
  unfolding fail
  fail-IsServed =
      if_elim IsServed c.closed _ _ (λ e. ok)
        (λ e. record {
          calls_lem = lose-IsServed c.calls ok.calls_lem;
          pending_lem = tt;
          hand_lem = HandFits-lost c.hand ok.hand_lem;
          closed_lem = λ k. refl;
        })

  -- The reply with the id is taken into an empty hand.
  in_hand :
      (id : ℕ) (a : Answer) (w : Waiting)
      → c.hand ≡ none
      → member id c.pending ≡ true
      → By w
      → IsServedBy (remove id c.pending) (some (id, a)) c.next w
  in_hand id a w n m h =
      let before : is_empty w.channel ≡ (member w.id c.pending || held_for w.id none) =
        rw n at h.empty_lem in
      record {
        empty_lem = elim (Bool-cases (id == w.id)) [
          | inl e ↦ ground (arith, before, m, ==_iff id w.id)
          | inr e ↦ ground (
            arith,
            before,
            member-remove_other w.id id c.pending (ground (arith, ==_iff id w.id, ==_iff w.id id)),
          )
        ];
        own_lem = h.own_lem;
        old_lem = h.old_lem;
      }

  belongs-answer_of :
      (id : ℕ) (e : Option String) (r : String) → belongs id (answer_of id e r) ≡ true
  belongs-answer_of id none r = ground arith
  belongs-answer_of id (some e) r = ground arith

  read_message-IsServed : (m : Incoming) → c.hand ≡ none → IsServed (read_message m c)
  read_message-IsServed (completed thread kind name) n =
      if_elim IsServed (is_watched c thread kind name) _ _
        (λ e. record {
          calls_lem = ok.calls_lem;
          pending_lem = ok.pending_lem;
          hand_lem = HandFits-same c.hand ok.hand_lem;
          closed_lem = ok.closed_lem;
        })
        (λ e. ok)
    where
      HandFits-same :
          (hand : Option (ℕ × Answer))
          → HandFits c hand
          → HandFits (record c { recorded = true }) hand
      HandFits-same none h = h
      HandFits-same (some (i, a)) h = h
  read_message-IsServed notified n = ok
  read_message-IsServed (reply id e r) n =
      if_elim IsServed (member id c.pending) _ _
        (λ m. record {
          calls_lem = All-map (λ w h. in_hand id (answer_of id e r) w n m h) c.calls ok.calls_lem;
          pending_lem = remove-old id c.next c.pending ok.pending_lem;
          hand_lem = (
            belongs-answer_of id e r,
            member-remove_same id c.pending,
            member-old id c.next c.pending ok.pending_lem m,
          );
          closed_lem = λ k. ap (remove id) (ok.closed_lem k);
        })
        (λ m. ok)

  filled :
      (i : ℕ) (a : Answer) (w : Waiting)
      → c.hand ≡ some (i, a)
      → HandFits c (some (i, a))
      → By w
      → IsServedBy c.pending none c.next (if w.id == i then record w { channel = some a } else w)
  filled i a w n (b, m, o) h =
      let before : is_empty w.channel ≡ (member w.id c.pending || held_for w.id (some (i, a))) =
        rw n at h.empty_lem in
      if_elim (IsServedBy c.pending none c.next) (w.id == i) _ _
        (λ e.
          let same : w.id ≡ i = (==_iff w.id i).0 e in
          record {
            empty_lem = rw same (ground (arith, m));
            own_lem = rw same b;
            old_lem = h.old_lem;
          })
        (λ e. record {
          empty_lem = ground (arith, before, e, ==_iff w.id i, ==_iff i w.id);
          own_lem = h.own_lem;
          old_lem = h.old_lem;
        })

  fill_channel-IsServed :
      (i : ℕ) (a : Answer)
      → c.hand ≡ some (i, a)
      → HandFits c (some (i, a))
      → (ws : List Waiting) → All By ws
      → All (IsServedBy c.pending none c.next) (fill_channel i a ws)
  fill_channel-IsServed i a n f [] h = tt
  fill_channel-IsServed i a n f (w ∷ ws) (h, hs) =
      (filled i a w n f h, fill_channel-IsServed i a n f ws hs)

  -- The two steps of the read loop, by what is in its hand.
  abbrev read_with : Incoming → Option (ℕ × Answer) → Client
  read_with m none = read_message m c
  read_with m (some h) = c

  read_with-IsServed :
      (m : Incoming) (hand : Option (ℕ × Answer)) → c.hand ≡ hand → IsServed (read_with m hand)
  read_with-IsServed m none e = read_message-IsServed m e
  read_with-IsServed m (some h) e = ok

  pub receive_message-IsServed : (m : Incoming) → IsServed (receive_message m c)
  unfolding receive_message
  receive_message-IsServed m = read_with-IsServed m c.hand refl

  abbrev put_with : Option (ℕ × Answer) → Client
  put_with none = c
  put_with (some (i, a)) = record c { hand = none; calls = fill_channel i a c.calls }

  put_with-IsServed :
      (hand : Option (ℕ × Answer)) → c.hand ≡ hand → HandFits c hand → IsServed (put_with hand)
  put_with-IsServed none e h = ok
  put_with-IsServed (some (i, a)) e h = record {
    calls_lem = fill_channel-IsServed i a e h c.calls ok.calls_lem;
    pending_lem = ok.pending_lem;
    hand_lem = tt;
    closed_lem = ok.closed_lem;
  }

  pub put_answer-IsServed : IsServed (put_answer c)
  unfolding put_answer
  put_answer-IsServed = put_with-IsServed c.hand refl ok.hand_lem

  abbrev take_with : ℕ → Option Answer → Option Answer × Client
  take_with id none = (none, c)
  take_with id (some a) = (some a, end_call id c)

  take_with-IsServed : (id : ℕ) (o : Option Answer) → IsServed (take_with id o).1
  take_with-IsServed id none = ok
  take_with-IsServed id (some a) = end_call-IsServed id

  pub take_answer-IsServed : (id : ℕ) → IsServed (take_answer id c).1
  unfolding take_answer
  take_answer-IsServed id = take_with-IsServed id (channel_of id c.calls)

  HandFits-watch :
      (thread name : String) (hand : Option (ℕ × Answer))
      → HandFits c hand
      → HandFits (record c { watch_thread = thread; watch_name = name; recorded = false }) hand
  HandFits-watch thread name none h = h
  HandFits-watch thread name (some (i, a)) h = h

  pub watch-IsServed : (thread name : String) → IsServed (watch thread name c)
  unfolding watch
  watch-IsServed thread name =
      if_elim IsServed (not (str_eq c.watch_thread thread && str_eq c.watch_name name)) _ _
        (λ e. record {
          calls_lem = ok.calls_lem;
          pending_lem = ok.pending_lem;
          hand_lem = HandFits-watch thread name c.hand ok.hand_lem;
          closed_lem = ok.closed_lem;
        })
        (λ e. ok)
