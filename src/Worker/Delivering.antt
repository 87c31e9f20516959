-- ===== src/Worker/Delivering.antt =====
-- worker.go: `statusSender`, `maintenance` and `notify`. What the app-server answers, the clock and
-- what a socket write returns are parameters.
use cross_session_codex.Common.{
  ℕ, ◌+◌, ◌*◌, ◌/◌, String, Bool, true, false, not, ◌&&◌, ◌||◌, List, [], ◌∷◌, ◌++◌, Option, none,
  some, ltb, ◌==◌, str_eq, if◌then◌else◌, contains,
}
use cross_session_codex.Json.{ℤ, pos, negsuc, text_or_empty}
use cross_session_codex.Numbers.{second}
use cross_session_codex.Peer.{Peer}
use cross_session_codex.Sql.{
  host_unverified, not_published, Sql, ◌>>=◌, ◌>>◌, pure, raise, query, exec,
}
use cross_session_codex.Store.{
  Db, Row, Message, unread, Delivery, Wake, WakeState, submitted, recorded, uncertain, rejected,
}
use cross_session_codex.Store.Rows.{count}
use cross_session_codex.Store.Expiry.{expire}
use cross_session_codex.Store.Outbound.{same_delivery}
use cross_session_codex.Store.Notice.{begin_wake, finish_wake, same_wake}
use cross_session_codex.Config.{Config, Owner}
use cross_session_codex.Worker.{Node, StatusRequest, Activity, on_store, look, edit, enqueue_status}

-- The status that goes out for a request: its target and whether it says why messages were dropped.
pub record StatusFrame : Type 0 where
  pub target : Peer
  pub status : Delivery
  pub orig_msg_id : String
  pub reason : String
  pub dropped_msg_ids : List String

abbrev pub address_of : Option Message → String
address_of none = ""
address_of (some m) = text_or_empty m.sender

abbrev wire_id_of : Option Message → String
wire_id_of none = ""
wire_id_of (some m) = m.wire_id

-- (status == "accepted" || status == "read") && !slices.Contains(target.Features, "inbox-receipts")
abbrev pub is_unwanted : Delivery → Peer → Bool
is_unwanted status target =
    (same_delivery status Delivery.accepted || same_delivery status Delivery.read)
    && not (contains target.features "inbox-receipts")

abbrev frame_to : StatusRequest → Option Peer → Option StatusFrame
frame_to r none = none
frame_to r (some target) =
    if is_unwanted r.status target
    then none
    else some (record {
      target = target;
      status = r.status;
      orig_msg_id = wire_id_of r.message;
      reason = r.reason;
      dropped_msg_ids = r.ids;
    })

abbrev pub behind : List StatusRequest → List StatusRequest
behind [] = []
behind (r ∷ rs) = rs

-- r := <-w.statusQueue
abbrev pub next_status : Node → Node
next_status n = record n { status_queue = behind n.status_queue }

-- One round of `statusSender`: the frame that it sends for a request, if it sends one. `own` is the
-- worker's address, `reply_target` is replyTarget.
unfoldable pub status_frame : (String → Option Peer) → String → StatusRequest → Option StatusFrame
status_frame reply_target own r =
    if str_eq (address_of r.message) "" || str_eq (address_of r.message) own
    then none
    else frame_to r (reply_target (address_of r.message))

-- setActivity(state, detail)
unfoldable pub next_activity : ℕ → String → String → String → Activity → Activity
next_activity now delivery state detail a = record {
  state = state;
  source = if str_eq delivery "manual" then "unavailable" else "app-server";
  detail = detail;
  observed_at = now;
  updated_at = if str_eq a.state state && str_eq a.detail detail then a.updated_at else now;
}

unfoldable pub set_activity : ℕ → String → String → Sql Node (Unit {0})
unfolding next_activity edit
set_activity now state detail =
    edit (λ n. record n { activity = next_activity now n.config.delivery state detail n.activity })

-- SetMeta("delivery_error", …) and SetMeta("retry_at", …)
abbrev pub with_error : Option String → Db → Db
with_error e db = record db { metadata = record db.metadata { delivery_error = e } }

unfoldable pub set_error : Option String → Sql Node (Unit {0})
unfolding on_store
set_error e = on_store (exec (with_error e))

unfoldable pub set_retry : ℕ → Sql Node (Unit {0})
unfolding on_store
set_retry at = on_store (exec (λ db. record db { metadata = record db.metadata { retry_at = at } }))

-- How the app-server answers a notice.
pub data NoticeAnswer : Type 0 where
  taken : NoticeAnswer
  turned_down unclear : String → NoticeAnswer

-- What the calls of the app-server return during one pass: the error of a dial, the error of an
-- attachment or a reading or else whether the thread is active, whether the notice was seen in the
-- events, whether the history has it, and the answer to a new notice.
pub record AppServer : Type 0 where
  pub is_closed : Bool
  pub dial : Option String
  pub thread : Bool → Option Bool
  pub thread_error : String
  pub was_recorded : Bool
  pub has_notice : String → Option Bool
  pub notice_error : String
  pub notice : String → NoticeAnswer

module _ (app : AppServer) (now : ℕ) where
  -- The end of an attempt to find a pending notice in the history.
  abbrev pub looked_up : Wake → Option Bool → Sql Node (Unit {0})
  looked_up w none = set_error (some app.notice_error)
  looked_up w (some true) = do
    on_store (
        finish_wake w.id recorded
          "Codex recorded the function output; inbox acknowledgement is still required")
    set_error none
  looked_up w (some false) = pure tt

  -- The branch of `notify` for a pending notice.
  unfoldable pub reconcile : Wake → Sql Node (Unit {0})
  unfolding set_error on_store finish_wake edit look
  reconcile w = do
    last ← look (λ n. n.last_reconcile)
    if str_eq w.name ""
          || same_wake w.state recorded
          || not app.was_recorded && ltb now (last + 15 * second)
        then pure tt
        else (do edit (λ n. record n { last_reconcile = now }); looked_up w (app.has_notice w.name))

  -- client.Notice(…)
  abbrev pub send_notice : Wake → Sql Node (Unit {0})
  send_notice w = edit (λ n. record n { notices = n.notices ++ w.name ∷ [] })

  abbrev pub not_delivered : Wake → WakeState → String → Sql Node (Unit {0})
  not_delivered w state detail = do
    on_store (finish_wake w.id state detail)
    set_retry (now / second + 30)
    set_error (some detail)

  abbrev pub answered : Wake → NoticeAnswer → Sql Node (Unit {0})
  answered w taken = do
    on_store (
        finish_wake w.id submitted
          "App-server accepted the notice; model processing is not yet confirmed")
    edit (λ n. record n { last_reconcile = 0 })
    set_error none
  answered w (turned_down detail) = not_delivered w rejected detail
  answered w (unclear detail) = not_delivered w uncertain detail

  abbrev pub attempt : Option Wake → Sql Node (Unit {0})
  attempt none = pure tt
  attempt (some w) = do send_notice w; answered w (app.notice w.name)

  -- The branch of `notify` without one; `fresh` is the new UUID.
  unfoldable pub start_notice : String → Sql Node (Unit {0})
  unfolding on_store begin_wake finish_wake set_error set_retry edit
  start_notice fresh = do
    retry ← on_store (query (λ db. db.metadata.retry_at))
    if ltb (now / second) retry
        then pure tt
        else (do wake ← on_store (begin_wake fresh now); attempt wake)

  abbrev pub by_wake : String → Option Wake → Sql Node (Unit {0})
  by_wake fresh none = start_notice fresh
  by_wake fresh (some w) = reconcile w

  -- notify(ctx, cfg)
  unfoldable pub notify : String → Sql Node (Unit {0})
  unfolding reconcile start_notice on_store count set_error
  notify fresh = do
    n ← on_store (count unread "")
    if n == 0
        then set_error none
        else (do wake ← on_store (query (λ db. db.metadata.wake)); by_wake fresh wake)

  -- The loop over the messages whose wait has ended.
  unfoldable pub tell_expired : List Row → Sql Node (Unit {0})
  unfolding enqueue_status
  tell_expired [] = pure tt
  tell_expired (x ∷ xs) = do enqueue_status (some x.content) Delivery.expired "" []; tell_expired xs

  -- `publishes` says whether the registration can be written.
  module _ (publishes : Bool) where
    abbrev pub publish : Sql Node (Unit {0})
    publish = if publishes then pure tt else raise not_published

    abbrev pub unreachable : String → Sql Node (Unit {0})
    unreachable detail = do
      edit (λ n. record n { attached = false })
      set_activity now "unknown" detail
      set_error (some detail)
      publish

    abbrev pub observed_thread : String → Option Bool → Sql Node (Unit {0})
    observed_thread fresh none = unreachable app.thread_error
    observed_thread fresh (some active) = do
      edit (λ n. record n { attached = true })
      set_activity now (if active then "busy" else "idle") ""
      publish
      notify fresh

    abbrev pub dialled : String → Bool → Option String → Sql Node (Unit {0})
    dialled fresh true none = do
      edit (λ n. record n { has_client = true; attached = false })
      observed_thread fresh (app.thread false)
    dialled fresh true (some e) = do
      edit (λ n. record n { has_client = false; attached = false })
      unreachable e
    dialled fresh false _ = do
      attached ← look (λ n. n.attached)
      observed_thread fresh (app.thread attached)

    -- The delivery half of `maintenance`.
    unfoldable pub deliver : String → Sql Node (Unit {0})
    unfolding set_activity set_error notify look edit
    deliver fresh = do
      manual ← look (λ n. str_eq n.config.delivery "manual")
      if manual
          then (do
            set_activity now "unknown" "Manual delivery has no Codex activity connection"
            publish)
          else (do
            missing ← look (λ n. not n.has_client || app.is_closed)
            dialled fresh missing app.dial)

    abbrev pub expiring : String → Sql Node (Unit {0})
    expiring fresh = do old ← on_store (expire now); tell_expired old; deliver fresh

    abbrev pub stop : Sql Node (Unit {0})
    stop = edit (λ n. record n { stopped = true })

    -- What follows the check of the owner.
    unfoldable pub by_owner : String → String → Owner → Sql Node (Unit {0})
    unfolding set_activity set_error on_store expire tell_expired deliver edit look
    by_owner fresh detail Owner.host_unverified = do
      edit (λ n. record n { owner_unverified = true })
      set_activity now "unknown" detail
      set_error (some detail)
      publish
      raise host_unverified
    by_owner fresh detail Owner.owned = do
      unverified ← look (λ n. n.owner_unverified)
      if unverified
          then (do
            set_error none
            edit (λ n. record n { owner_unverified = false })
            expiring fresh)
          else expiring fresh
    by_owner fresh detail _ = stop

    abbrev pub seconds_of : ℤ → ℕ
    seconds_of (pos n) = n
    seconds_of (negsuc n) = 0

    -- maintenance(); `owner` is the check of the owner by the configuration
    unfoldable pub maintenance : String → String → (Config → Owner) → Sql Node (Unit {0})
    unfolding by_owner edit look
    maintenance fresh detail owner = do
      over ← look (λ n. ltb (n.last_touch + seconds_of n.config.lease * second) now)
      if over then stop else (do answer ← look (λ n. owner n.config); by_owner fresh detail answer)
