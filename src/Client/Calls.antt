-- ===== src/Client/Calls.antt =====
-- The life of a call, and that the client implements it: a call waits, has at most one answer, which is
-- its own, and then is gone.
use cross_session_codex.Common.{
  if_elim, ℕ, suc, str_eq, ◌≡◌, refl, sym, subst, ap, ◌∙◌, true, false, not, ◌&&◌, ◌||◌, List, [],
  ◌∷◌, Option, none, some, ◌==◌, ==_iff, leb, arith, Bool-cases, inl, inr, if◌then◌else◌, All,
}
use cross_session_codex.Client.{
  Answer, lost, Waiting, Client, member, without, new_client, begin_call, lose, fail, end_call,
  channel_of, take_answer, fail_write, Incoming, completed, notified, reply, read_message,
  is_watched, receive_message, fill_channel, put_answer, watch, Event, begins, write_fails, arrives,
  puts, takes, gives_up, disconnects, watches, happen, history,
}
use cross_session_codex.Client.Channels.{
  IsServedBy, IsServed, HandFits, belongs, is_empty, held_for,
}
use cross_session_codex.Client.Served.{history-IsServed}

-- What is to be seen of a call with an id.
pub data View : Type 0 where
  absent : View
  waiting : View
  answered : Answer → View

abbrev pub view_of : Option Answer → View
view_of none = waiting
view_of (some a) = answered a

abbrev pub view : ℕ → List Waiting → View
view id [] = absent
view id (w ∷ ws) = let rest = view id ws in if w.id == id then view_of w.channel else rest

-- The life of a call.
pub data Lives (id : ℕ) : View → View → Type 0 where
  stays : (v : View) → Lives id v v
  starts : Lives id absent waiting
  answers : (a : Answer) → belongs id a ≡ true → Lives id waiting (answered a)
  ends : (v : View) → Lives id v absent

Lives_eq : (id : ℕ) (u v : View) → v ≡ u → Lives id u v
Lives_eq id u v e = subst (Lives id u) (sym e) (stays u)

view-without_same : (id : ℕ) (ws : List Waiting) → view id (without id ws) ≡ absent
view-without_same id [] = refl
view-without_same id (w ∷ ws) = elim (Bool-cases (w.id == id)) [
  | inl e ↦ rw e (view-without_same id ws)
  | inr e ↦ rw e (rw e (view-without_same id ws))
]

view-without_other :
    (id other : ℕ) (ws : List Waiting)
    → (other == id) ≡ false
    → view id (without other ws) ≡ view id ws
view-without_other id other [] n = refl
view-without_other id other (w ∷ ws) n = elim (Bool-cases (w.id == other)) [
  | inl e ↦
      let k : (w.id == id) ≡ false =
        ground (arith, e, n, ==_iff w.id other, ==_iff w.id id, ==_iff other id) in
      rw (e, k) (view-without_other id other ws n)
  | inr e ↦ rw e (
      ap (λ (t : View). if w.id == id then view_of w.channel else t)
        (view-without_other id other ws n))
]

-- Ending a call leaves the others alone.
without-Lives :
    (id other : ℕ) (ws : List Waiting) → Lives id (view id ws) (view id (without other ws))
without-Lives id other ws = elim (Bool-cases (other == id)) [
  | inl e ↦
      let same : other ≡ id = (==_iff other id).0 e in
      subst (λ (o : ℕ). Lives id (view id ws) (view id (without o ws))) (sym same)
        (subst (Lives id (view id ws)) (sym (view-without_same id ws)) (ends (view id ws)))
  | inr e ↦ Lives_eq id (view id ws) (view id (without other ws)) (view-without_other id other ws e)
]

module _ (pending : List ℕ) (hand : Option (ℕ × Answer)) (next : ℕ) where
  abbrev Served : Waiting → Type 0
  Served = IsServedBy pending hand next

  empty-view :
      (w : Waiting)
      → Served w
      → (member w.id pending || held_for w.id hand) ≡ true
      → view_of w.channel ≡ waiting
  empty-view w h e = of_channel w.channel (h.empty_lem ∙ e)
    where
      of_channel : (o : Option Answer) → is_empty o ≡ true → view_of o ≡ waiting
      of_channel none k = refl
      of_channel (some a) k = absurd cc

  -- A lost connection answers a call that waits, and only such a one.
  lose-Lives :
      (id : ℕ) (ws : List Waiting)
      → All Served ws
      → Lives id (view id ws) (view id (lose pending ws))
  lose-Lives id [] h = stays absent
  lose-Lives id (w ∷ ws) (h, hs) = elim (Bool-cases (member w.id pending)) [
    | inl m ↦ elim (Bool-cases (w.id == id)) [
      | inl e ↦ rw (m, e) (rw (empty-view w h (ground (arith, m))) (answers lost refl))
      | inr e ↦ rw (m, e) (lose-Lives id ws hs)
    ]
    | inr m ↦ elim (Bool-cases (w.id == id)) [
      | inl e ↦ rw (m, e) (stays (view_of w.channel))
      | inr e ↦ rw (m, e) (lose-Lives id ws hs)
    ]
  ]

  -- The reply in hand answers the call that waits for it.
  fill_channel-Lives :
      (id i : ℕ) (a : Answer) (ws : List Waiting)
      → hand ≡ some (i, a)
      → belongs i a ≡ true
      → All Served ws
      → Lives id (view id ws) (view id (fill_channel i a ws))
  fill_channel-Lives id i a [] e b h = stays absent
  fill_channel-Lives id i a (w ∷ ws) e b (h, hs) = elim (Bool-cases (w.id == i)) [
    | inl k ↦ elim (Bool-cases (w.id == id)) [
      | inl l ↦
          let held : held_for w.id hand ≡ true =
            rw e (ground (arith, k, ==_iff w.id i, ==_iff i w.id)) in
          let own : belongs id a ≡ true =
            subst (λ (x : ℕ). belongs x a ≡ true) (sym ((==_iff w.id i).0 k) ∙ (==_iff w.id id).0 l)
              b in
          rw (k, l) (rw (empty-view w h (ground (arith, held))) (answers a own))
      | inr l ↦ rw (k, l) (fill_channel-Lives id i a ws e b hs)
    ]
    | inr k ↦ elim (Bool-cases (w.id == id)) [
      | inl l ↦ rw (k, l) (stays (view_of w.channel))
      | inr l ↦ rw (k, l) (fill_channel-Lives id i a ws e b hs)
    ]
  ]

  -- A number that was not yet given belongs to no call.
  view-new :
      (id : ℕ) (ws : List Waiting) → leb id next ≡ false → All Served ws → view id ws ≡ absent
  view-new id [] n h = refl
  view-new id (w ∷ ws) n (h, hs) =
      let other : (w.id == id) ≡ false = ground (arith, h.old_lem, n, ==_iff w.id id) in
      rw other (view-new id ws n hs)

module _ (id : ℕ) (c : Client) (ok : IsServed c) where
  -- A step of the client is a step in the life of the call.
  abbrev LivesOn : Client → Type 0
  LivesOn d = Lives id (view id c.calls) (view id d.calls)

  begin_call-LivesOn : LivesOn (begin_call c).1
  unfolding begin_call
  begin_call-LivesOn =
      if_elim (λ (r : Option ℕ × Client). LivesOn r.1) c.closed _ _ (λ e. stays (view id c.calls))
        (λ e. elim (Bool-cases (suc c.next == id)) [
          | inl k ↦ rw k (
              rw
                (view-new c.pending c.hand c.next id c.calls
                  (ground (arith, k, ==_iff (suc c.next) id)) ok.calls_lem)
                starts)
          | inr k ↦ rw k (stays (view id c.calls))
        ])

  fail-LivesOn : LivesOn (fail c)
  unfolding fail
  fail-LivesOn =
      if_elim LivesOn c.closed _ _ (λ e. stays (view id c.calls))
        (λ e. lose-Lives c.pending c.hand c.next id c.calls ok.calls_lem)

  -- Ending a call after another step.
  end_call-LivesOn : (other : ℕ) (d : Client) → LivesOn d → LivesOn (end_call other d)
  unfolding end_call
  end_call-LivesOn other d h = elim (Bool-cases (other == id)) [
    | inl e ↦
        subst (λ (o : ℕ). Lives id (view id c.calls) (view id (without o d.calls)))
          (sym ((==_iff other id).0 e))
          (subst (Lives id (view id c.calls)) (sym (view-without_same id d.calls))
            (ends (view id c.calls)))
    | inr e ↦ subst (Lives id (view id c.calls)) (sym (view-without_other id other d.calls e)) h
  ]

  read_message-LivesOn : (m : Incoming) → LivesOn (read_message m c)
  read_message-LivesOn (completed thread kind name) =
      if_elim LivesOn (is_watched c thread kind name) _ _ (λ e. stays (view id c.calls))
        (λ e. stays (view id c.calls))
  read_message-LivesOn notified = stays (view id c.calls)
  read_message-LivesOn (reply i e r) =
      if_elim LivesOn (member i c.pending) _ _ (λ e. stays (view id c.calls))
        (λ e. stays (view id c.calls))

  received_with :
      (m : Incoming) (hand : Option (ℕ × Answer))
      → LivesOn (elim hand as (λ _. Client) [ none ↦ read_message m c | some h ↦ c ])
  received_with m none = read_message-LivesOn m
  received_with m (some h) = stays (view id c.calls)

  put_with :
      (hand : Option (ℕ × Answer))
      → c.hand ≡ hand
      → HandFits c hand
      → LivesOn (elim hand as (λ _. Client) [
        | none ↦ c
        | some (i, a) ↦ record c { hand = none; calls = fill_channel i a c.calls }
      ])
  put_with none e f = stays (view id c.calls)
  put_with (some (i, a)) e (b, _, _) =
      fill_channel-Lives c.pending c.hand c.next id i a c.calls e b ok.calls_lem

  taken_with :
      (other : ℕ) (o : Option Answer)
      → LivesOn
          (elim o as (λ _. Option Answer × Client) [
            | none ↦ (none, c)
            | some a ↦ (some a, end_call other c)
          ]).1
  taken_with other none = stays (view id c.calls)
  taken_with other (some a) = end_call-LivesOn other c (stays (view id c.calls))

  happen-LivesOn : (e : Event) → LivesOn (happen e c)
  unfolding fail_write receive_message put_answer take_answer watch
  happen-LivesOn begins = begin_call-LivesOn
  happen-LivesOn (write_fails other) = end_call-LivesOn other (fail c) fail-LivesOn
  happen-LivesOn (arrives m) = received_with m c.hand
  happen-LivesOn puts = put_with c.hand refl ok.hand_lem
  happen-LivesOn (takes other) = taken_with other (channel_of other c.calls)
  happen-LivesOn (gives_up other) = end_call-LivesOn other c (stays (view id c.calls))
  happen-LivesOn disconnects = fail-LivesOn
  happen-LivesOn (watches thread name) =
      if_elim LivesOn (not (str_eq c.watch_thread thread && str_eq c.watch_name name)) _ _
        (λ e. stays (view id c.calls)) (λ e. stays (view id c.calls))

-- Whatever happens next to a client, after any sequence of events on a new connection, each of its calls
-- stays as it is or goes on in its life: a new call waits, a call that waits is answered by its own answer
-- or by the loss of the connection, and a call ends. No answer is ever replaced or taken back.
pub history-Lives :
    (id : ℕ) (es : List Event) (e : Event)
    → Lives id
        (view id (history es new_client).calls)
        (view id (happen e (history es new_client)).calls)
history-Lives id es e = happen-LivesOn id (history es new_client) (history-IsServed es) e
