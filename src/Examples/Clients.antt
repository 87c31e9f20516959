-- ===== src/Examples/Clients.antt =====
-- The theorems about the client of the app-server, the handoff and the registry at concrete inputs.
use cross_session_codex.Common.{
  ℕ, ◌≡◌, ◌↔◌, refl, true, false, List, [], ◌∷◌, ◌++◌, Option, none, some, leb, length, Bytes,
  codes, String, str_eq, arith, if◌then◌else◌,
}
use cross_session_codex.Bytes.{is_nothing, cut_first, split_on, cut_last, join_with}
use cross_session_codex.Json.{pos, empty}
use cross_session_codex.Path.{clean}
use cross_session_codex.Peer.{Peer}
use cross_session_codex.Client.{
  new_client, Event, begins, arrives, puts, disconnects, reply, happen, history,
}
use cross_session_codex.Client.Channels.{IsServed}
use cross_session_codex.Client.Served.{history-IsServed}
use cross_session_codex.Client.Calls.{Lives, view, history-Lives}
use cross_session_codex.Client.Quote.{bare, read_word, shell_quote, shell_quote-read_word}
use cross_session_codex.Client.Threads.{AppThread, LoadedPage, attached, attach, lists}
use cross_session_codex.Client.Threads.Scanning.{Reaches, HasIt, IsUsable, attach_iff}
use cross_session_codex.Handshake.{
  Round, moved, no_fault, interrupted, read_frame, received, write_frame, object, number, text,
  Ready, Surroundings, exchange, proceeds, take_fields,
}
use cross_session_codex.Handshake.Pipes.{transmitted, read_frame_iff}
use cross_session_codex.Handshake.Agreement.{IsAgreed, exchange-IsAgreed}
use cross_session_codex.Registry.{socket_path, is_socket_dir, is_socket_name}
use cross_session_codex.Registry.Resolving.{
  Questions, Entry, Directory, listed, discover, resolve, found_peers, IsOnly, IsVetted,
  resolve-IsOnly,
}

abbrev events : List Event
events =
    begins
    ∷ begins
    ∷ arrives (reply 2 none "b")
    ∷ puts
    ∷ arrives (reply 1 none "a")
    ∷ disconnects
    ∷ puts
    ∷ []

history-IsServed_example : IsServed (history events new_client)
history-IsServed_example = history-IsServed events

history-Lives_example :
    Lives 2
      (view 2 (history events new_client).calls)
      (view 2 (happen begins (history events new_client)).calls)
history-Lives_example = history-Lives 2 events begins

abbrev pages : ℕ → String → Option LoadedPage
pages asked cursor =
    if str_eq cursor ""
    then some (record { threads = "a" ∷ []; next = "2" })
    else some (record { threads = "b" ∷ []; next = "" })

abbrev idle : String → Option AppThread
idle id = some (record { id = id; ephemeral = false; can_accept = none; status = "idle" })

attach_iff_example :
    (attach pages idle "b"
      ≡ attached (record { id = "b"; ephemeral = false; can_accept = none; status = "idle" }))
    ↔ (Reaches (lists "b") (λ p. p.next) pages (HasIt (lists "b") (λ p. p.next) pages) 100 0 ""
        × (idle "b"
            ≡ some (record { id = "b"; ephemeral = false; can_accept = none; status = "idle" }))
        × IsUsable "b" (record { id = "b"; ephemeral = false; can_accept = none; status = "idle" }))
attach_iff_example =
    attach_iff pages idle "b"
      (record { id = "b"; ephemeral = false; can_accept = none; status = "idle" })

shell_quote-read_word_example :
    read_word bare (shell_quote (codes "/opt/it's here/csc") ++ b' ' ∷ codes "read")
    ≡ some (codes "/opt/it's here/csc", codes "read")
shell_quote-read_word_example = shell_quote-read_word (codes "/opt/it's here/csc") (codes "read")

abbrev parent_reads : List (Round Bytes)
parent_reads =
    moved (codes "ok") no_fault
    ∷ moved [] interrupted
    ∷ moved (10 ∷ []) no_fault
    ∷ moved [] no_fault
    ∷ []

read_frame_iff_example : (read_frame parent_reads [] ≡ received (codes "ok" ++ 10 ∷ [])) ↔ (
    (transmitted parent_reads ≡ some (codes "ok" ++ 10 ∷ []))
    × (leb (length (codes "ok" ++ 10 ∷ [])) 8192 ≡ true))
read_frame_iff_example = read_frame_iff parent_reads (codes "ok" ++ 10 ∷ [])

abbrev ready : Ready
ready = record {
  thread_id = codes "t";
  codex_home = codes "/c";
  app_server_socket = codes "/s";
  owner_pid = pos 7;
  owner_start = codes "now";
  name = codes "n";
  version = codes "v";
}

abbrev surroundings : Surroundings
surroundings = record {
  canonical = λ t. some t;
  encode = λ r nonce. nonce;
  decode = λ line.
      object
        ((codes "action", text (codes "continue"))
          ∷ (codes "v", number 1)
          ∷ (codes "nonce", text (codes "0f"))
          ∷ [])
        true;
  nonce = some (codes "0f");
  done = false;
  writes = moved 2 no_fault ∷ moved 1 no_fault ∷ [];
  reads = parent_reads;
}

drawn : (n : Bytes) → some (codes "0f") ≡ some n → is_nothing n ≡ false
drawn [] h = ground arith
drawn (b ∷ bs) h = refl

ready-proceeds : (exchange surroundings false ready).outcome ≡ proceeds
unfolding exchange write_frame read_frame cut_first take_fields
ready-proceeds = refl

exchange-IsAgreed_example : IsAgreed surroundings ready (exchange surroundings false ready).sent
exchange-IsAgreed_example = exchange-IsAgreed surroundings false ready drawn ready-proceeds

abbrev peer : Peer
peer = record {
  pid = pos 7;
  start = "s";
  domain = "d";
  socket = "/tmp/cc-socks/7.sock";
  name = "n";
  thread = "";
  host_pid = pos 0;
  host_start = "";
  features = [];
  ref = "r";
  cwd = "/w";
  status = "";
  activity = empty;
  version = "";
  protocol = pos 1;
}

abbrev questions : Questions
questions = record {
  itoa = λ p. codes "7";
  verified = λ p s d. true;
  process_start = λ p. none;
  ref_of = λ p s. "r";
}

abbrev registry : Directory
registry = listed (
    record { file = codes "README"; advertised = none }
    ∷ record { file = codes "7.json"; advertised = some peer }
    ∷ [])

peer-resolved : resolve questions (pos 1) registry "n" ≡ some peer
unfolding resolve discover socket_path is_socket_dir is_socket_name clean split_on cut_last
    join_with
peer-resolved = refl

resolve-IsOnly_example :
    (es : List Entry) × (registry ≡ listed es)
    × IsOnly "n" (found_peers questions (pos 1) es) peer
    × IsVetted questions (pos 1) peer
resolve-IsOnly_example = resolve-IsOnly questions (pos 1) registry "n" peer peer-resolved
