-- ===== src/Examples/Workers.antt =====
-- The theorems about internal/bridge/worker.go, applied to a worker with the small inbox.
use cross_session_codex.Common.{
  Bool, String, List, str_eq, if◌then◌else◌, codes, ◌≡◌, refl, true, false, [], ◌∷◌, none, some,
  arith, ◌⊎◌, inl, inr,
}
use cross_session_codex.Json.{Fields, arr, item, end, field, text, empty}
use cross_session_codex.Sql.{World}
use cross_session_codex.Store.{relay_loop, empty_db}
use cross_session_codex.Envelope.{framed, unframed, empty_body}
use cross_session_codex.Config.{Config, valid, Owner}
use cross_session_codex.Worker.{Node}
use cross_session_codex.Worker.Receive.{receive}
use cross_session_codex.Worker.Commands.{release}
use cross_session_codex.Worker.Configure.{Surroundings, configure}
use cross_session_codex.Worker.Delivering.{AppServer, taken, maintenance, notify}
use cross_session_codex.Worker.Soundness.{IsSound}
use cross_session_codex.Worker.Operations.{receive-IsSound}
use cross_session_codex.Worker.Guards.{maintenance-IsBarred}
use cross_session_codex.Worker.Adoption.{IsAdopted, configure-IsAdopted}
use cross_session_codex.Worker.Notices.{notify-pending}
use cross_session_codex.Worker.Life.{
  Outside, Event, arrives, decides, sends, flushes, reports, live, live-IsSound,
}
use cross_session_codex.Worker.Artifacts.{
  Disk, Call, Action, write, open_socket, clean, is_own, acts,
}
use cross_session_codex.Worker.Foreign.{acts-IsForeign}
use cross_session_codex.Examples.{letter, notice, db, db-IsValid, config}

abbrev node : Node
node = record {
  db = db;
  pid = 7;
  address = "uds:/s/7.sock";
  config = config;
  drops = record { from_address = "a"; reason = relay_loop; messages = letter "x" 1 ∷ [] } ∷ [];
  status_queue = [];
  signalled = false;
  activity = record {
    state = "idle";
    source = "app-server";
    detail = "";
    observed_at = 0;
    updated_at = 0;
  };
  last_touch = 0;
  has_client = true;
  attached = true;
  last_reconcile = 0;
  owner_unverified = false;
  notices = "n" ∷ [];
  stopped = false;
}

-- The second statement fails.
abbrev world : World Node
world = record { tables = node; faults = false ∷ true ∷ [] }

node-IsSound : IsSound node
node-IsSound = record {
  inbox = db-IsValid;
  queue = ground arith;
  keys = ground arith;
  batches = (ground arith, tt);
}

receive-IsSound_example :
    IsSound
      (receive
        (λ _ s. s)
        (λ _. framed (letter "d" 9))
        (λ _ _ _. true)
        empty
        8
        "1"
        9
        "d"
        world).1.tables
receive-IsSound_example =
    receive-IsSound (λ _ s. s) (λ _. framed (letter "d" 9)) (λ _ _ _. true) empty 8 "1" 9 "d" world
      node-IsSound

abbrev arguments : Fields
arguments = field "ids" (arr (item (text "b") end)) empty

abbrev around : Surroundings
around = record {
  owner = λ _. Owner.owned;
  is_free = λ _. true;
  attaches = λ _. true;
  saves = λ _. true;
  publishes = λ _. false;
}

abbrev app : AppServer
app = record {
  is_closed = false;
  dial = none;
  thread = λ _. some false;
  thread_error = "";
  was_recorded = true;
  has_notice = λ _. some false;
  notice_error = "";
  notice = λ _. taken;
}

notify-pending_example : (notify app 99 "f" world).1.tables.notices ≡ "n" ∷ []
notify-pending_example = notify-pending app 99 "f" notice world refl

-- The registration cannot be written.
maintenance-IsBarred_example :
    (maintenance app 99 false "f" "" (λ _. Owner.owned) world).1.tables.notices
    ≡ world.tables.notices
maintenance-IsBarred_example =
    maintenance-IsBarred app 99 false "f" "" (λ _. Owner.owned) world (inr (inr (inr (inl refl))))

nul_test : codes "\0" ≡ 0 ∷ []
nul_test = refl

-- Another program's file at "/x", and nothing at any other path.
abbrev disk : Disk
disk = record { files = λ p. if str_eq p "/x" then some 5 else none; artifacts = λ _. none }

abbrev call : String → Call
call path = record { path = path; lstat_fails = false; makes = true; fresh = 8; sees = true }

abbrev life : List Action
life = open_socket true (call "/y") ∷ write (call "/x") ∷ write (call "/y") ∷ clean (λ _. true) ∷ []

acts-IsForeign_example :
    ((acts life disk).files "/x" ≡ some 5)
    × (is_own ((acts life disk).artifacts "/x") (some 5) ≡ false)
acts-IsForeign_example = acts-IsForeign life "/x" 5 disk (refl, refl)

abbrev outside : Outside
outside = record {
  identity = λ _ s. s;
  decode = λ _. framed (letter "d" 9);
  matches = λ _ _ _. true;
  write = λ _ _. none;
  frame = λ _ _. unframed empty_body;
  reply_target = λ _. none;
  apply = λ _ c. valid c;
}

abbrev new_node : Node
new_node = record node { db = empty_db; drops = [] }

-- A message arrives twice, the second time with a failing statement, and is then released.
abbrev events : List (List Bool × Event)
events =
    ([], arrives empty 8 "1" 9 "d")
    ∷ (false ∷ true ∷ [], arrives empty 8 "1" 9 "e")
    ∷ ([], decides 9 release arguments)
    ∷ ([], sends none 9)
    ∷ ([], flushes)
    ∷ ([], reports)
    ∷ []

live-IsSound_example : IsSound (live outside events new_node)
live-IsSound_example = live-IsSound outside events new_node refl refl refl

-- A new inbound rule, where the registration cannot be written.
abbrev accepting : Config → Config
accepting c = record c { inbound = "accept" }

configure-IsAdopted_example :
    ((configure around (λ _ c. valid (accepting c)) empty world).1.tables.config ≡ config)
    ⊎ ((c : Config) × ((configure around (λ _ c. valid (accepting c)) empty world).1.tables.config
          ≡ c)
        × IsAdopted around (λ _ c. valid (accepting c)) empty config c)
configure-IsAdopted_example = configure-IsAdopted around (λ _ c. valid (accepting c)) empty world
