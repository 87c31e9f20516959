-- ===== src/Client/Served.antt =====
-- Every call of a client gets its own answer, once, and none is left waiting on a lost connection.
use cross_session_codex.Common.{ℕ, ◌≡◌, refl, ◌∙◌, true, false, List, [], ◌∷◌, Option, none, All}
use cross_session_codex.Client.{
  Answer, Waiting, Client, new_client, fail, fail_write, Event, begins, write_fails, arrives, puts,
  takes, gives_up, disconnects, watches, happen, history,
}
use cross_session_codex.Client.Channels.{is_empty, IsServedBy, IsServed}
use cross_session_codex.Client.Steps.{
  end_call-IsServed, begin_call-IsServed, fail-IsServed, receive_message-IsServed,
  put_answer-IsServed, take_answer-IsServed, watch-IsServed,
}

happen-IsServed : (e : Event) (c : Client) → IsServed c → IsServed (happen e c)
unfolding fail_write
happen-IsServed begins c ok = begin_call-IsServed c ok
happen-IsServed (write_fails id) c ok = end_call-IsServed (fail c) (fail-IsServed c ok) id
happen-IsServed (arrives m) c ok = receive_message-IsServed c ok m
happen-IsServed puts c ok = put_answer-IsServed c ok
happen-IsServed (takes id) c ok = take_answer-IsServed c ok id
happen-IsServed (gives_up id) c ok = end_call-IsServed c ok id
happen-IsServed disconnects c ok = fail-IsServed c ok
happen-IsServed (watches thread name) c ok = watch-IsServed c ok thread name

new_client-IsServed : IsServed new_client
new_client-IsServed = record {
  calls_lem = tt;
  pending_lem = tt;
  hand_lem = tt;
  closed_lem = λ e. refl;
}

history-kept : (es : List Event) (c : Client) → IsServed c → IsServed (history es c)
history-kept [] c ok = ok
history-kept (e ∷ es) c ok = history-kept es (happen e c) (happen-IsServed e c ok)

-- After every sequence of events on a new connection, the channel of each call that has not returned is
-- empty exactly while its reply is pending or in the hand of the read loop, and holds no answer but its
-- own; a reply in hand is no longer pending, so that its channel has room; and a lost connection has
-- nothing pending.
pub history-IsServed : (es : List Event) → IsServed (history es new_client)
history-IsServed es = history-kept es new_client new_client-IsServed

-- Once the connection is lost and the read loop has put down what it held, every call that has not
-- returned has an answer to take.
pub history-answered :
    (es : List Event)
    → (history es new_client).closed ≡ true
    → (history es new_client).hand ≡ none
    → All (λ (w : Waiting). is_empty w.channel ≡ false) (history es new_client).calls
history-answered es closed hand =
    let c : Client = history es new_client in
    let ok : IsServed c = history-IsServed es in
    answered c.pending c.hand (ok.closed_lem closed) hand c.calls ok.calls_lem
  where
    answered :
        (pending : List ℕ) (held : Option (ℕ × Answer))
        → pending ≡ []
        → held ≡ none
        → (ws : List Waiting) → All (IsServedBy pending held (history es new_client).next) ws
        → All (λ (w : Waiting). is_empty w.channel ≡ false) ws
    answered pending held p h [] k = tt
    answered pending held p h (w ∷ ws) (k, ks) =
        (k.empty_lem ∙ rw (p, h) refl, answered pending held p h ws ks)
