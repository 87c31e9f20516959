-- ===== src/Shutdown/Inventory.antt =====
-- appserver_stop.go: `activeAppThreads` and `appServerOwners`, what is still in use.
use cross_session_codex.Common.{
  ℕ, zero, suc, String, Bool, true, false, not, ◌||◌, List, [], ◌∷◌, ◌++◌, Option, none, some,
  str_eq, if◌then◌else◌,
}
use cross_session_codex.Json.{ℤ, pos}
use cross_session_codex.Numbers.{int_eq}
use cross_session_codex.Config.{Config, canonical_thread}
use cross_session_codex.Shutdown.{
  Stop, done, halt, ◌>>=◌, ◌>>◌, obtain, ensure, owners_unknown, threads_unknown, other_thread,
  unknown_status, bad_pagination, too_many_pages,
}

pub data ThreadStatus : Type 0 where
  idle not_loaded system_error active other : ThreadStatus

-- One page of "thread/loaded/list": its ids and the next cursor. A failed call and a page without its
-- list are `none`.
pub record Listing : Type 0 where
  pub ids : List String
  pub next : String

pub record Thread : Type 0 where
  pub id : String
  pub status : ThreadStatus

abbrev pub is_active : ThreadStatus → Bool
is_active active = true
is_active _ = false

abbrev pub is_known : ThreadStatus → Bool
is_known other = false
is_known _ = true

module _ (list : String → Option Listing) (read : String → Option Thread) where
  -- The loop over the ids of a page.
  unfoldable pub read_threads : List String → List String → Stop (List String)
  read_threads [] found = done found
  read_threads (id ∷ ids) found = do
    t ← obtain threads_unknown (read id)
    ensure (str_eq t.id id) other_thread
    ensure (is_known t.status) unknown_status
    read_threads ids (if is_active t.status then found ++ id ∷ [] else found)

  -- The loop over the pages, on the number of pages that are left.
  unfoldable pub read_pages : ℕ → String → List String → Stop (List String)
  unfolding read_threads
  read_pages zero cursor found = halt too_many_pages
  read_pages (suc fuel) cursor found = do
    page ← obtain threads_unknown (list cursor)
    now ← read_threads page.ids found
    elim (str_eq page.next "") [
      | true ↦ done now
      | false ↦ elim (str_eq page.next cursor) [
        | true ↦ halt bad_pagination
        | false ↦ read_pages fuel page.next now
      ]
    ]

  -- activeAppThreads(ctx, client)
  unfoldable pub active_threads : Stop (List String)
  unfolding read_pages
  active_threads = read_pages 100 "" []

-- One directory of the state root: its name, whether it is the user's own, and its configuration.
pub data Saved : Type 0 where
  no_config bad_config : Saved
  config : Config → Saved

pub record Entry : Type 0 where
  pub name : String
  pub is_own : Bool
  pub saved : Saved

module _ (parse_uuid : String → Option String) (process_start : ℤ → Option String)
    (has_exited : ℤ → Bool) (socket : String) where
  abbrev pub lives : Config → Option String → Stop Bool
  lives c none = if has_exited c.host_pid then done false else halt owners_unknown
  lives c (some start) = done (str_eq start c.host_start)

  abbrev pub owns : Saved → Stop Bool
  owns no_config = done false
  owns bad_config = halt owners_unknown
  owns (config c) =
      if not (str_eq c.app_socket socket) || int_eq c.host_pid (pos 0)
      then done false
      else lives c (process_start c.host_pid)

  abbrev is_thread : Option String → Bool
  is_thread none = false
  is_thread (some id) = true

  -- The loop of appServerOwners(socket) over the entries of the state root.
  unfoldable pub owners_of : List Entry → List String → Stop (List String)
  unfolding canonical_thread
  owners_of [] found = done found
  owners_of (e ∷ es) found = elim (is_thread (canonical_thread parse_uuid e.name)) [
    | false ↦ owners_of es found
    | true ↦ do
      ensure e.is_own owners_unknown
      mine ← owns e.saved
      owners_of es (if mine then found ++ e.name ∷ [] else found)
  ]
