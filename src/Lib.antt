-- ===== src/Lib.antt =====
-- cross-session-codex lets Codex sessions exchange messages with other sessions on one machine. A
-- worker (internal/bridge/worker.go) serves one session: it takes the frames of its peers, keeps them
-- in an inbox database (internal/bridge/store.go) until the user acknowledges, releases or declines
-- them, reports what becomes of each message to its sender, and wakes Codex by a notice that it hands
-- to the app-server. This library models the core of it.
--
--   Common    shared names, Boolean tests, lists measured by native numbers, texts
--   Json      JSON values and `str`, `number` of internal/bridge/protocol.go
--   Numbers   integers that the program only compares, and the units of time
--   Peer      `Peer` and `peerKey` of internal/bridge/protocol.go
--   Names     `normalizeName` of internal/bridge/protocol.go
--   Envelope  `userFrame` and `decodeUser` of internal/bridge/protocol.go
--   Config    `Config`, `Validate`, `applyConfig` of internal/bridge/manager.go and `checkHost` of
--             internal/bridge/lifecycle.go
--   Sql       statements, faults and transactions, with the rules by which an action keeps a predicate
--   Store     internal/bridge/store.go: the tables, one module for each group of methods (Rows,
--             Admission, Page, Transition, Expire as Expiry, Outbound, Notice) and one for each proof
--   Worker    internal/bridge/worker.go: `receive` (Receive), the commands of the control socket
--             (Commands), `configure` (Configure), `maintenance`, `notify` and `statusSender`
--             (Delivering), `listen`, `writeArtifact` and `cleanup` (Artifacts), and one
--             module for each proof
--   Shutdown  internal/bridge/appserver_stop.go: the identity of the server (the module itself), owners
--             and threads (Inventory), the output of lsof (Connections), `Shutdown` (Decision)
--   Procfs    internal/bridge/appserver_connections_linux.go: numerals and maps (the module itself), the
--             tables of sockets (Tables and Protocols), snapshots and inventories (Sockets),
--             `linuxAppServerConnections` (Inspection), and what an inventory and the count
--             say (Found, Classified, Counted)
--   Identity  internal/bridge/peer_identity.go and peer_identity_linux.go
--   Bytes     the functions of Go's `strings` on texts of bytes
--   Path      the functions of Go's `path` and `filepath`
--   Registry  internal/bridge/protocol.go: addresses and trusted files (the module itself), `Discover`
--             and `resolve` (Resolving), `replyTarget`, `sendFrame` and `readLine` (Sending)
--   Client    internal/bridge/appserver.go: the calls that share a connection (the module itself, with
--             Channels, Steps, Served and Calls), `Attach` and `HasNotice` (Threads), `shellQuote` (Quote)
--   Handshake internal/bridge/launch_handshake.go: the two loops (Pipes), the answer of the parent
--             (Consent) and `Exchange` (Agreement)
--   Release   internal/release: version tags (Tag), `extractSource` (Archive), the source
--             that is built and its label (Source), the calls of the system (Outside), the checks of a
--             run (Checks) and `run` (Run)
--   Examples  the theorems at concrete inputs
--
-- A method of `Store` is a state-passing action over the three tables. The world holds, next to the
-- tables, a list that says of each statement to come whether it fails, so that a theorem about every
-- world is one about every failure; a failing commit is a failing statement. Rows stand in the order
-- of their rowid. Times are whole nanoseconds where the program has float seconds; the revision of the
-- acknowledgements is a 64-bit pattern. The new UUID and the time of a call are arguments. The worker
-- runs the methods of the store on its own database, and its state in memory changes without a
-- statement; a channel is the list of what waits in it. The methods hold the store's mutex, so that
-- each is one action. An event in the life of a worker (Worker.Life) is a whole operation, where the
-- goroutines of the program can interleave at single calls of the store. The look at a file and the
-- rename that replaces it are one step (Worker.Artifacts).
--
-- The scan for the attributes of an envelope runs on fuel, one unit for each character, and every step
-- takes at least one; the reader of Store.Reading has one unit more than there are messages.
--
-- `Shutdown` asks the same questions twice; its answers are a record with one field for each time. The
-- listing of the threads has the program's own limit of 100 pages.
--
-- A client is changed by one critical section of its mutex at a time; the read loop that has taken a
-- reply out of the pending ones and not yet put it into its channel is a state of its own. The number of
-- a call is not bounded, where the program has 64 bits. The loops over a pipe or a reader are given the
-- rounds to come; a loop that is given no further round is still at it, and no theorem counts that as an
-- answer.
--
-- A run of the release tool is an action that asks the system one question after the other. Each answer
-- is a function of the place of the question in that sequence, so that the same question can have
-- another answer later, and the world keeps the questions. The search for the nearest directory that
-- exists has one round for each element of the path and one for the root; a round takes one element away.
--
-- An assignment to a nil map is an error of the statement here (FinishWake), where the program panics;
-- and the revision in a notice is compared exactly, where the program compares float64 values, which
-- agree below 2^53. The size of a target is not part of its record here.
--
-- Not modelled: sockets, files, process inspection and the app-server, whose answers are parameters;
-- the length of an encoded response or frame, uuid.Parse, html.UnescapeString and the Unicode classes,
-- which are parameters too; the JSON text of the columns, which are records here; launching,
-- installation and the command line.
pub mod Common
pub mod Json
pub mod Sql
pub mod Numbers
pub mod Peer
pub mod Procfs
pub mod Names
pub mod Config
pub mod Envelope
pub mod Worker
pub mod Shutdown
pub mod Bytes
pub mod Path
pub mod Registry
pub mod Release
pub mod Client
pub mod Handshake
pub mod Identity
pub mod Store
pub mod Examples
