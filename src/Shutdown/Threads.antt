-- ===== src/Shutdown/Threads.antt =====
-- appserver_stop.go: what `activeAppThreads` finds is what the pages of the app-server list.
use mathlib.Core.Path.{subst}
use cross_session_codex.Common.{
  ℕ, zero, suc, ◌≡◌, ◌≢◌, refl, sym, ap, ◌∙◌, String, Bool, true, false, List, [], ◌∷◌, ◌++◌,
  append_assoc, append-nil, Option, none, some, str_eq, eq_iff, if◌then◌else◌, select, All,
  All-append, Bool-cases, inl, inr, arith,
}
use cross_session_codex.Shutdown.{done}
use cross_session_codex.Shutdown.Steps.{bind-done, obtain-done, ensure-done, value_or}
use cross_session_codex.Shutdown.Inventory.{
  Listing, Thread, is_active, is_known, read_threads, read_pages, active_threads,
}

-- The pages that a client gets that follows the cursors, from the first to the last.
abbrev pub Chain : (String → Option Listing) → String → List Listing → Type 0
Chain list cursor [] = ⊥
Chain list cursor (p ∷ []) = (list cursor ≡ some p) × (p.next ≡ "")
Chain list cursor (p ∷ q ∷ ps) = (list cursor ≡ some p) × (p.next ≢ "") × Chain list p.next (q ∷ ps)

abbrev pub ids_on : List Listing → List String
ids_on [] = []
ids_on (p ∷ ps) = p.ids ++ ids_on ps

-- The app-server answers for the thread itself, with a status that the program knows.
abbrev pub IsRead : (String → Option Thread) → String → Type 0
IsRead read id = (t : Thread) × (read id ≡ some t) × (t.id ≡ id) × (is_known t.status ≡ true)

abbrev of_thread : Option Thread → Bool
of_thread none = false
of_thread (some t) = is_active t.status

abbrev pub is_running : (String → Option Thread) → String → Bool
is_running read id = of_thread (read id)

select-append :
    (p : String → Bool) (xs ys : List String) → select p (xs ++ ys) ≡ select p xs ++ select p ys
unfolding select
select-append p [] ys = refl
select-append p (x ∷ xs) ys = ground (arith, select-append p xs ys)

module _ (list : String → Option Listing) (read : String → Option Thread) where
  more-select :
      (id : String) (ids found : List String) (t : Thread)
      → read id ≡ some t
      → (if is_active t.status then found ++ id ∷ [] else found) ++ select (is_running read) ids
        ≡ found ++ select (is_running read) (id ∷ ids)
  unfolding select
  more-select id ids found t e =
      ground (arith, e, append_assoc found (id ∷ []) (select (is_running read) ids))

  read_threads-select :
      (ids found now : List String)
      → read_threads list read ids found ≡ done now
      → All (IsRead read) ids × (now ≡ found ++ select (is_running read) ids)
  unfolding read_threads select
  read_threads-select [] found now h = (tt, sym (ap (value_or now) h) ∙ sym (append-nil found))
  read_threads-select (id ∷ ids) found now h =
      let (t, e₁, h₁) = obtain-done _ (read id) _ now h in
      let (e₂, h₂) = ensure-done (str_eq t.id id) _ _ now h₁ in
      let (e₃, h₃) = ensure-done (is_known t.status) _ _ now h₂ in
      let (rest, e₄) = read_threads-select ids _ now h₃ in
      (((t, e₁, (eq_iff t.id id).0 e₂, e₃), rest), e₄ ∙ more-select id ids found t e₁)

  -- What a number of rounds comes to.
  Found : String → List String → List String → Type 0
  Found cursor found result =
      (pages : List Listing) × Chain list cursor pages
      × All (IsRead read) (ids_on pages)
      × (result ≡ found ++ select (is_running read) (ids_on pages))

  longer :
      (cursor : String) (page : Listing) (pages : List Listing)
      → list cursor ≡ some page
      → page.next ≢ ""
      → Chain list page.next pages
      → Chain list cursor (page ∷ pages)
  longer cursor page [] e n c = absurd c
  longer cursor page (q ∷ ps) e n c = (e, n, c)

  last-Found :
      (cursor : String) (page : Listing) (found now : List String)
      → list cursor ≡ some page
      → page.next ≡ ""
      → All (IsRead read) page.ids
      → now ≡ found ++ select (is_running read) page.ids
      → Found cursor found now
  unfolding Found
  last-Found cursor page found now e n here s = (
    page ∷ [],
    (e, n),
    All-append (IsRead read) page.ids [] here tt,
    s ∙ ap (λ l. found ++ select (is_running read) l) (sym (append-nil page.ids)),
  )

  more-Found :
      (cursor : String) (page : Listing) (found now result : List String)
      → list cursor ≡ some page
      → page.next ≢ ""
      → All (IsRead read) page.ids
      → now ≡ found ++ select (is_running read) page.ids
      → Found page.next now result
      → Found cursor found result
  unfolding Found
  more-Found cursor page found now result e n here s (pages, c, rest, t) = (
    page ∷ pages,
    longer cursor page pages e n c,
    All-append (IsRead read) page.ids (ids_on pages) here rest,
    t
        ∙ ap (λ l. l ++ select (is_running read) (ids_on pages)) s
        ∙ append_assoc found (select (is_running read) page.ids)
            (select (is_running read) (ids_on pages))
        ∙ ap (λ l. found ++ l) (sym (select-append (is_running read) page.ids (ids_on pages))),
  )

  read_pages-Found :
      (fuel : ℕ) (cursor : String) (found result : List String)
      → read_pages list read fuel cursor found ≡ done result
      → Found cursor found result
  unfolding read_pages Found
  read_pages-Found zero cursor found result h = absurd cc
  read_pages-Found (suc fuel) cursor found result h =
      let (page, e₁, h₁) = obtain-done _ (list cursor) _ result h in
      let (now, e₂, h₂) = bind-done (read_threads list read page.ids found) _ result h₁ in
      let (here, e₃) = read_threads-select page.ids found now e₂ in
      elim (Bool-cases (str_eq page.next "")) [
        | inl l ↦
            let same : done now ≡ done result = ground (arith, h₂, l) in
            subst (Found cursor found) (ap (value_or result) same)
              (last-Found cursor page found now e₁ ((eq_iff page.next "").0 l) here e₃)
        | inr l ↦ elim (Bool-cases (str_eq page.next cursor)) [
          | inl k ↦ absurd (ground (arith, h₂, l, k))
          | inr k ↦
              let rest : read_pages list read fuel page.next now ≡ done result =
                ground (arith, h₂, l, k) in
              more-Found cursor page found now result e₁
                (λ same. ground (arith, l, same, eq_iff page.next "")) here e₃
                (read_pages-Found fuel page.next now result rest)
        ]
      ]

-- A list of active threads that `activeAppThreads` returns is complete and right: it followed the
-- cursors from the first page to the last, the app-server answered for every thread on them with a
-- status that the program knows, and the list has exactly those that are active, in order.
pub active_threads_lem :
    (list : String → Option Listing) (read : String → Option Thread) (found : List String)
    → active_threads list read ≡ done found
    → (pages : List Listing) × Chain list "" pages
      × All (IsRead read) (ids_on pages)
      × (found ≡ select (is_running read) (ids_on pages))
unfolding active_threads Found
active_threads_lem list read found h = read_pages-Found list read 100 "" [] found h
