-- ===== src/Client/Threads.antt =====
-- `Attach`, `ReadThread` and `HasNotice` of internal/bridge/appserver.go: what the client asks of the
-- app-server page by page.
pub mod Scanning
use cross_session_codex.Common.{
  ℕ, zero, suc, Bool, true, false, not, ◌&&◌, ◌||◌, List, [], ◌∷◌, Option, none, some,
  if◌then◌else◌, String, str_eq, contains,
}

-- How a scan of pages ends: at a page with what is looked for, at the last page, at a request that
-- fails, at a cursor that does not move, or at the limit on the number of pages.
pub data Scan : Type 0 where
  hit : Scan
  ended : Scan
  page_failed : Scan
  bad_cursor : Scan
  exhausted : Scan

-- The page that answers a request depends on how many came before it and on its cursor.
module _ {A : Type 0} (hits : A → Bool) (next : A → String) (pages : ℕ → String → Option A) where
  abbrev pub scan_page : Option A → String → (String → Scan) → Scan
  scan_page none cursor rest = page_failed
  scan_page (some p) cursor rest =
      if hits p
      then hit
      else if str_eq (next p) ""
      then ended
      else if str_eq (next p) cursor
      then bad_cursor
      else rest (next p)

  unfoldable pub scan : ℕ → ℕ → String → Scan
  scan zero asked cursor = exhausted
  scan (suc n) asked cursor = scan_page (pages asked cursor) cursor (λ c. scan n (suc asked) c)

pub record AppThread : Type 0 where
  pub id : String
  pub ephemeral : Bool
  pub can_accept : Option Bool
  pub status : String

pub data ThreadFault : Type 0 where
  another_thread : ThreadFault
  ephemeral_thread : ThreadFault
  refuses_input : ThreadFault
  wrong_status : String → ThreadFault

abbrev pub refuses : Option Bool → Bool
refuses none = false
refuses (some b) = not b

abbrev pub check_thread : AppThread → String → Option ThreadFault
check_thread t id =
    if not (str_eq t.id id)
    then some another_thread
    else if t.ephemeral
    then some ephemeral_thread
    else if refuses t.can_accept
    then some refuses_input
    else if not (str_eq t.status "idle") && not (str_eq t.status "active")
    then some (wrong_status t.status)
    else none

pub data Attachment : Type 0 where
  attached : AppThread → Attachment
  call_failed : Attachment
  not_loaded : Attachment
  unusable : ThreadFault → Attachment

abbrev pub verdict : Option ThreadFault → AppThread → Attachment
verdict none t = attached t
verdict (some f) t = unusable f

-- What a call of thread/read or thread/resume ends with.
abbrev pub checked : Option AppThread → String → Attachment
checked none id = call_failed
checked (some t) id = verdict (check_thread t id) t

unfoldable pub read_thread : (String → Option AppThread) → String → Attachment
read_thread read id = checked (read id) id

pub record LoadedPage : Type 0 where
  pub threads : List String
  pub next : String

abbrev pub attach_after : Scan → (String → Option AppThread) → String → Attachment
attach_after hit resume id = checked (resume id) id
attach_after ended resume id = not_loaded
attach_after exhausted resume id = not_loaded
attach_after page_failed resume id = call_failed
attach_after bad_cursor resume id = call_failed

abbrev pub lists : String → LoadedPage → Bool
lists id p = contains p.threads id

unfoldable pub attach :
    (ℕ → String → Option LoadedPage) → (String → Option AppThread) → String → Attachment
attach pages resume id = attach_after (scan (lists id) (λ p. p.next) pages 100 0 "") resume id

-- The type and the name of an item.
pub record ItemPage : Type 0 where
  pub items : List (String × String)
  pub next : String

abbrev pub has_output : String → List (String × String) → Bool
has_output name [] = false
has_output name ((kind, n) ∷ items) =
    str_eq kind "functionCallOutput" && str_eq n name || has_output name items

-- Whether the notice is there, or an error.
abbrev pub notice_after : Scan → Option Bool
notice_after hit = some true
notice_after ended = some false
notice_after _ = none

unfoldable pub has_notice : Bool → (ℕ → String → Option ItemPage) → String → Option Bool
has_notice recorded pages name =
    if recorded
    then some true
    else notice_after (scan (λ p. has_output name p.items) (λ p. p.next) pages 20 0 "")
