-- ===== src/Worker/Soundness.antt =====
-- worker.go: what holds of a worker between any two steps, and the rules by which an operation keeps it.
use cross_session_codex.Common.{
  ◌+◌, ◌≤◌, ◌≡◌, refl, String, not, ◌&&◌, List, [], ◌∷◌, Option, none, some, leb, if◌then◌else◌,
  length, All, arith, Bool-cases, inl, inr, length-append,
}
use cross_session_codex.Json.{text_or_empty}
use cross_session_codex.Sql.{Sql}
use cross_session_codex.Sql.Triple.{Keeps, Keeps-pure, Keeps-bind}
use cross_session_codex.Store.{Db, Message, Reason, Delivery}
use cross_session_codex.Store.Validity.{IsValid}
use cross_session_codex.Worker.{
  Node, Batch, StatusRequest, on_store, look, edit, enqueue, enqueue_status, drop_into, drop,
  has_batch, add_to, is_key, grow, flush_all, flush_batch, flush_drops, after_nul, reason_text,
  last_and_ids, signal,
}

abbrev pub IsSmall : Batch → Type 0
IsSmall b = length b.messages ≤ 100

-- The inbox is valid, at most 128 statuses wait, and at most 128 batches of at most 100 dropped
-- messages each are kept for their report.
pub record IsSound (n : Node) : Type 0 where
  pub inbox : IsValid n.db
  pub queue : length n.status_queue ≤ 128
  pub keys : length n.drops ≤ 128
  pub batches : All IsSmall n.drops

module _ {A : Type 0} where
  pub Keeps-on_store : (m : Sql Db A) → Keeps IsValid m → Keeps IsSound (on_store m)
  unfolding on_store
  Keeps-on_store m h = record {
    at = λ w s. record {
      inbox = h.at (record { tables = w.tables.db; faults = w.faults }) s.inbox;
      queue = s.queue;
      keys = s.keys;
      batches = s.batches;
    };
  }

  pub Keeps-look : {P : Node → Type 0} (f : Node → A) → Keeps P (look f)
  unfolding look
  Keeps-look f = record { at = λ w p. p }

pub Keeps-edit :
    {P : Node → Type 0} (f : Node → Node) → ((n : Node) → P n → P (f n)) → Keeps P (edit f)
unfolding edit
Keeps-edit f h = record { at = λ w p. h w.tables p }

length-enqueue :
    (r : StatusRequest) (queue : List StatusRequest)
    → length queue ≤ 128
    → length (enqueue r queue) ≤ 128
unfolding enqueue
length-enqueue r queue h = ground (arith, h, length-append queue (r ∷ []))

-- An edit of what the invariant does not speak of.
pub Keeps-aside :
    (f : Node → Node)
    → ((n : Node) → (f n).db ≡ n.db)
    → ((n : Node) → (f n).status_queue ≡ n.status_queue)
    → ((n : Node) → (f n).drops ≡ n.drops)
    → Keeps IsSound (edit f)
Keeps-aside f db queue drops = Keeps-edit f (λ n s. record {
  inbox = rw (db n) s.inbox;
  queue = rw (queue n) s.queue;
  keys = rw (drops n) s.keys;
  batches = rw (drops n) s.batches;
})

pub enqueue_status-IsSound :
    (m : Option Message) (status : Delivery) (reason : String) (ids : List String)
    → Keeps IsSound (enqueue_status m status reason ids)
unfolding enqueue_status
enqueue_status-IsSound m status reason ids = Keeps-edit _ (λ n s. record {
  inbox = s.inbox;
  queue = length-enqueue _ n.status_queue s.queue;
  keys = s.keys;
  batches = s.batches;
})

grow-IsSmall : (m : Message) (b : Batch) → IsSmall b → IsSmall (grow m b)
grow-IsSmall m b h = ground (arith, h, length-append b.messages (m ∷ []))

add_to-IsSmall :
    (a : String) (reason : Reason) (m : Message) (bs : List Batch)
    → All IsSmall bs
    → All IsSmall (add_to a reason m bs)
unfolding add_to
add_to-IsSmall a reason m [] h = (ground arith, tt)
add_to-IsSmall a reason m (b ∷ bs) (h, hs) = elim (Bool-cases (is_key a reason b)) [
  | inl e ↦ rw e (grow-IsSmall m b h, hs)
  | inr e ↦ rw e (h, add_to-IsSmall a reason m bs hs)
]

length-add_to :
    (a : String) (reason : Reason) (m : Message) (bs : List Batch)
    → length (add_to a reason m bs) ≡ length bs + (if has_batch a reason bs then 0 else 1)
unfolding add_to has_batch
length-add_to a reason m [] = ground arith
length-add_to a reason m (b ∷ bs) = ground (arith, length-add_to a reason m bs)

length-drop_into :
    (m : Message) (reason : Reason) (drops : List Batch)
    → length drops ≤ 128
    → length (drop_into m reason drops) ≤ 128
unfolding drop_into
length-drop_into m reason drops h =
    ground (arith, h, length-add_to (text_or_empty m.sender) reason m drops)

drop_into-IsSmall :
    (m : Message) (reason : Reason) (drops : List Batch)
    → All IsSmall drops
    → All IsSmall (drop_into m reason drops)
unfolding drop_into
drop_into-IsSmall m reason drops h =
    elim (Bool-cases
      (not (has_batch (text_or_empty m.sender) reason drops) && leb 128 (length drops))) [
        | inl e ↦ rw e h
        | inr e ↦ rw e (add_to-IsSmall (text_or_empty m.sender) reason m drops h)
      ]

pub drop-IsSound : (m : Message) (reason : Reason) → Keeps IsSound (drop m reason)
unfolding drop
drop-IsSound m reason = Keeps-edit _ (λ n s. record {
  inbox = s.inbox;
  queue = s.queue;
  keys = length-drop_into m reason n.drops s.keys;
  batches = drop_into-IsSmall m reason n.drops s.batches;
})

flush_batch-IsSound :
    (reason : String) (o : Option (Message × List String)) → Keeps IsSound (flush_batch reason o)
unfolding flush_batch
flush_batch-IsSound reason none = Keeps-pure tt
flush_batch-IsSound reason (some (m, ids)) = enqueue_status-IsSound (some m) _ _ ids

flush_all-IsSound : (bs : List Batch) → Keeps IsSound (flush_all bs)
unfolding flush_all
flush_all-IsSound [] = Keeps-pure tt
flush_all-IsSound (b ∷ bs) =
    Keeps-bind _ _
      (flush_batch-IsSound (after_nul b.from_address (reason_text b.reason))
        (last_and_ids [] b.messages))
      (λ _. flush_all-IsSound bs)

pub flush_drops-IsSound : Keeps IsSound flush_drops
unfolding flush_drops
flush_drops-IsSound = Keeps-bind _ _ (Keeps-look _) (λ batches.
    Keeps-bind _ _
      (Keeps-edit _
        (λ n s. record { inbox = s.inbox; queue = s.queue; keys = ground arith; batches = tt }))
      (λ _. flush_all-IsSound batches))

pub signal-IsSound : Keeps IsSound signal
signal-IsSound = Keeps-aside _ (λ n. refl) (λ n. refl) (λ n. refl)
