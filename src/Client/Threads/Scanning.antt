-- ===== src/Client/Threads/Scanning.antt =====
-- What a scan of pages finds, and what attaching to a thread means.
use cross_session_codex.Common.{
  ℕ, zero, suc, ◌≡◌, ◌≢◌, refl, subst, ap, ◌∙◌, Bool, true, false, ◌||◌, Option, none, some,
  Bool-cases, inl, inr, ◌⊎◌, ◌↔◌, arith, if◌then◌else◌, String, str_eq,
}
use cross_session_codex.Client.Threads.{
  Scan, hit, ended, page_failed, bad_cursor, exhausted, scan_page, scan, AppThread, refuses,
  check_thread, attached, verdict, ThreadFault, checked, LoadedPage, attach_after, lists, attach,
  ItemPage, has_output, notice_after, has_notice,
}

module _ {A : Type 0} (hits : A → Bool) (next : A → String) (pages : ℕ → String → Option A) where
  -- The request with the cursor is answered by a page that leads on to another.
  pub record Leads (asked : ℕ) (cursor : String) (p : A) : Type 0 where
    pub answer : pages asked cursor ≡ some p
    pub not_here : hits p ≡ false
    pub not_last : str_eq (next p) "" ≡ false
    pub moves : str_eq (next p) cursor ≡ false

  -- Following the cursors, at most so many pages, comes to a page of the kind.
  pub data Reaches (Goal : A → Type 0) : ℕ → ℕ → String → Type 0 where
    here :
        {n asked : ℕ}
        → {cursor : String} → (p : A) → pages asked cursor ≡ some p
        → Goal p
        → Reaches Goal (suc n) asked cursor
    onward :
        {n asked : ℕ}
        → {cursor : String} → (p : A) → Leads asked cursor p
        → Reaches Goal n (suc asked) (next p)
        → Reaches Goal (suc n) asked cursor

  abbrev pub HasIt : A → Type 0
  HasIt p = hits p ≡ true

  abbrev pub IsLast : A → Type 0
  IsLast p = (hits p ≡ false) × (str_eq (next p) "" ≡ true)

  -- What a scan that settles the question has come to.
  abbrev GoalOf : Scan → A → Type 0
  GoalOf hit = HasIt
  GoalOf ended = IsLast
  GoalOf _ = λ p. ⊥

  abbrev settles : Scan → Bool
  settles hit = true
  settles ended = true
  settles _ = false

  page-Reaches :
      (s : Scan) (n asked : ℕ) (cursor : String) (r : Option A)
      → settles s ≡ true
      → pages asked cursor ≡ r
      → ((c : String)
          → scan hits next pages n (suc asked) c ≡ s
          → Reaches (GoalOf s) n (suc asked) c)
      → scan_page hits next pages r cursor (λ c. scan hits next pages n (suc asked) c) ≡ s
      → Reaches (GoalOf s) (suc n) asked cursor
  page-Reaches s n asked cursor none k e rest h =
      let f : settles page_failed ≡ true = ap settles h ∙ k in absurd cc
  page-Reaches s n asked cursor (some p) k e rest h = elim (Bool-cases (hits p)) [
    | inl a ↦ here p e (subst (λ (x : Scan). GoalOf x p) (rw a at h) a)
    | inr a ↦ elim (Bool-cases (str_eq (next p) "")) [
      | inl b ↦ here p e (subst (λ (x : Scan). GoalOf x p) (rw (a, b) at h) (a, b))
      | inr b ↦ elim (Bool-cases (str_eq (next p) cursor)) [
        | inl c ↦
            let f : settles bad_cursor ≡ true = ap settles (rw (a, b, c) at h) ∙ k in absurd cc
        | inr c ↦
            onward p (record { answer = e; not_here = a; not_last = b; moves = c })
              (rest (next p) (rw (a, b, c) at h))
      ]
    ]
  ]

  scan-Reaches :
      (s : Scan) (n asked : ℕ) (cursor : String)
      → settles s ≡ true
      → scan hits next pages n asked cursor ≡ s
      → Reaches (GoalOf s) n asked cursor
  unfolding scan
  scan-Reaches s zero asked cursor k h =
      let f : settles exhausted ≡ true = ap settles h ∙ k in absurd cc
  scan-Reaches s (suc n) asked cursor k h =
      page-Reaches s n asked cursor (pages asked cursor) k refl
        (λ c. scan-Reaches s n (suc asked) c k) h

  -- The scan that follows the cursors comes to the same.
  Reaches-hit :
      (n asked : ℕ) (cursor : String)
      → Reaches HasIt n asked cursor
      → scan hits next pages n asked cursor ≡ hit
  unfolding scan
  Reaches-hit zero asked cursor r = elim r [ ]
  Reaches-hit (suc n) asked cursor (here p e g) = rw (e, g) refl
  Reaches-hit (suc n) asked cursor (onward p l r) =
      rw (l.answer, l.not_here, l.not_last, l.moves) (Reaches-hit n (suc asked) (next p) r)

  Reaches-ended :
      (n asked : ℕ) (cursor : String)
      → Reaches IsLast n asked cursor
      → scan hits next pages n asked cursor ≡ ended
  unfolding scan
  Reaches-ended zero asked cursor r = elim r [ ]
  Reaches-ended (suc n) asked cursor (here p e (g, l)) = rw (e, g, l) refl
  Reaches-ended (suc n) asked cursor (onward p l r) =
      rw (l.answer, l.not_here, l.not_last, l.moves) (Reaches-ended n (suc asked) (next p) r)

-- The thread is the one asked for and can be sent to.
pub record IsUsable (id : String) (t : AppThread) : Type 0 where
  pub same_lem : str_eq t.id id ≡ true
  pub lasting_lem : t.ephemeral ≡ false
  pub open_lem : t.can_accept ≢ some false
  pub status_lem : (str_eq t.status "idle" || str_eq t.status "active") ≡ true

refuses-false : (o : Option Bool) → refuses o ≡ false → o ≢ some false
refuses-false none h e = absurd cc
refuses-false (some b) h e = ground arith

false-refuses : (o : Option Bool) → o ≢ some false → refuses o ≡ false
false-refuses none h = refl
false-refuses (some true) h = refl
false-refuses (some false) h = absurd (h refl)

check_thread-IsUsable : (t : AppThread) (id : String) → check_thread t id ≡ none → IsUsable id t
check_thread-IsUsable t id h = record {
  same_lem = ground (arith, h);
  lasting_lem = ground (arith, h);
  open_lem = refuses-false t.can_accept (ground (arith, h));
  status_lem = ground (arith, h);
}

IsUsable-check_thread : (t : AppThread) (id : String) → IsUsable id t → check_thread t id ≡ none
IsUsable-check_thread t id u =
    ground (arith, u.same_lem, u.lasting_lem, false-refuses t.can_accept u.open_lem, u.status_lem)

verdict-attached :
    (f : Option ThreadFault) (u t : AppThread) → verdict f u ≡ attached t → (f ≡ none) × (u ≡ t)
verdict-attached none u t h = (refl, cc)
verdict-attached (some f) u t h = absurd cc

checked-attached :
    (r : Option AppThread) (id : String) (t : AppThread)
    → checked r id ≡ attached t
    → (r ≡ some t) × IsUsable id t
checked-attached none id t h = absurd cc
checked-attached (some u) id t h =
    let (n, e) = verdict-attached (check_thread u id) u t h in
    (ap some e, subst (IsUsable id) e (check_thread-IsUsable u id n))

attached-checked :
    (r : Option AppThread) (id : String) (t : AppThread)
    → r ≡ some t
    → IsUsable id t
    → checked r id ≡ attached t
attached-checked r id t e u = rw (e, IsUsable-check_thread t id u) refl

attach_after-attached :
    (s : Scan) (resume : String → Option AppThread) (id : String) (t : AppThread)
    → attach_after s resume id ≡ attached t
    → (s ≡ hit) × (checked (resume id) id ≡ attached t)
attach_after-attached hit resume id t h = (refl, h)
attach_after-attached ended resume id t h = absurd cc
attach_after-attached exhausted resume id t h = absurd cc
attach_after-attached page_failed resume id t h = absurd cc
attach_after-attached bad_cursor resume id t h = absurd cc

-- Attach answers with a thread exactly where the thread is on one of the first hundred pages that the
-- cursors lead to, and the thread that the app-server resumes is that one and can be sent to.
pub attach_iff :
    (pages : ℕ → String → Option LoadedPage) (resume : String → Option AppThread) (id : String)
    (t : AppThread)
    → (attach pages resume id ≡ attached t) ↔ (
        Reaches (lists id) (λ p. p.next) pages (HasIt (lists id) (λ p. p.next) pages) 100 0 ""
        × (resume id ≡ some t)
        × IsUsable id t)
unfolding attach
attach_iff pages resume id t = (
  λ h.
      let (found, c) =
        attach_after-attached (scan (lists id) (λ p. p.next) pages 100 0 "") resume id t h in
      (
        scan-Reaches (lists id) (λ p. p.next) pages hit 100 0 "" refl found,
        (checked-attached (resume id) id t c).0,
        (checked-attached (resume id) id t c).1,
      ),
  λ (found, e, u).
      rw (Reaches-hit (lists id) (λ p. p.next) pages 100 0 "" found)
        (attached-checked (resume id) id t e u),
)

notice_after-some : (s : Scan) (b : Bool) → notice_after s ≡ some b → s ≡ (if b then hit else ended)
notice_after-some hit true h = refl
notice_after-some hit false h = absurd cc
notice_after-some ended true h = absurd cc
notice_after-some ended false h = refl
notice_after-some page_failed b h = absurd cc
notice_after-some bad_cursor b h = absurd cc
notice_after-some exhausted b h = absurd cc

module _ (pages : ℕ → String → Option ItemPage) (name : String) where
  abbrev has : ItemPage → Bool
  has p = has_output name p.items

  abbrev after : ItemPage → String
  after p = p.next

  -- One of the first twenty pages of the history has the notice.
  abbrev pub IsListed : Type 0
  IsListed = Reaches has after pages (HasIt has after pages) 20 0 ""

  -- The history ends within twenty pages, none of which has the notice.
  abbrev pub IsMissing : Type 0
  IsMissing = Reaches has after pages (IsLast has after pages) 20 0 ""

-- HasNotice says that a notice is missing exactly where it was not recorded and the history ends within
-- twenty pages, none of which has it; and that it is there exactly where it was recorded or one of
-- these pages has it. Everything else is an error.
pub has_notice_iff :
    (recorded : Bool) (pages : ℕ → String → Option ItemPage) (name : String)
    → ((has_notice recorded pages name ≡ some false) ↔ ((recorded ≡ false) × IsMissing pages name))
      × ((has_notice recorded pages name ≡ some true) ↔ ((recorded ≡ true) ⊎ IsListed pages name))
unfolding has_notice
has_notice_iff true pages name = ((λ h. absurd cc, λ (e, m). absurd cc), (λ h. inl refl, λ h. refl))
has_notice_iff false pages name =
    let s : Scan = scan (has pages name) (after pages name) pages 20 0 "" in
    (
      (
        λ h. (
          refl,
          scan-Reaches (has pages name) (after pages name) pages ended 20 0 "" refl
              (notice_after-some s false h),
        ),
        λ (e, m). rw (Reaches-ended (has pages name) (after pages name) pages 20 0 "" m) refl,
      ),
      (
        λ h. inr (
            scan-Reaches (has pages name) (after pages name) pages hit 20 0 "" refl
              (notice_after-some s true h)),
        λ h. found h,
      ),
    )
  where
    found : ((false ≡ true) ⊎ IsListed pages name) → has_notice false pages name ≡ some true
    found (inl e) = absurd cc
    found (inr m) = rw (Reaches-hit (has pages name) (after pages name) pages 20 0 "" m) refl
