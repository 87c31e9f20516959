-- ===== src/Store/Paging.antt =====
-- store.go: the pages that a reader gets by following the cursors are the messages, each once.
use cross_session_codex.Common.{
  ℕ, ◌+◌, ◌≤◌, ◌<◌, ◌≡◌, ◌≢◌, refl, ap, ◌∙◌, String, false, List, [], ◌∷◌, ◌++◌, append-nil,
  append_assoc, none, some, arith, ltb, str_eq, eq_iff, inl, inr, Bool-cases, if◌then◌else◌, length,
  take, All,
}
use cross_session_codex.Sql.{ok, ◌>>=◌, calm}
use cross_session_codex.Sql.Calm.{bind-calm}
use cross_session_codex.Store.{Db, Row, State}
use cross_session_codex.Store.Rows.{count, cursor, count_rows, rowid_of, rows_after}
use cross_session_codex.Store.Page.{max_read_response, fill, last_id, result_of, row_again, page}
use cross_session_codex.Store.Admission.{has_id}
use cross_session_codex.Store.Validity.{Ascending, DistinctIds}

count_rows-length :
    (s : State) (r : ℕ) (xs : List Row) → count_rows s r xs ≡ length (rows_after s r xs)
unfolding count_rows rows_after
count_rows-length s r [] = refl
count_rows-length s r (x ∷ xs) = ground (arith, count_rows-length s r xs)

module _ (size : Row → ℕ) where
  -- Once a message is in the page, the loop adds those that follow it up to some point.
  fill_more :
      (used : ℕ) (t : Row) (ts rows : List Row)
      → (pre : List Row) × (post : List Row) × (rows ≡ pre ++ post)
        × (fill size used (t ∷ ts) rows ≡ ok ((t ∷ ts) ++ pre))
  unfolding fill
  fill_more used t ts [] = ([], [], refl, rw append-nil)
  fill_more used t ts (x ∷ xs) = elim (Bool-cases (ltb max_read_response (used + (size x + 1)))) [
    | inl full ↦ ([], x ∷ xs, refl, rw full (rw append-nil))
    | inr fits ↦
        let (pre, post, e, f) = fill_more (used + (size x + 1)) t (ts ++ x ∷ []) xs in
        (
          x ∷ pre,
          post,
          ap (λ l. x ∷ l) e,
          rw fits (f ∙ ap (λ l. ok (t ∷ l)) (append_assoc ts (x ∷ []) pre)),
        )
  ]

  abbrev pub Fits : ℕ → Row → Type 0
  Fits base x = base + (size x + 1) ≤ max_read_response

  pub fill_page :
      (base : ℕ) (rows : List Row)
      → All (Fits base) rows
      → (pre : List Row) × (post : List Row) × (rows ≡ pre ++ post)
        × (rows ≢ [] → pre ≢ [])
        × (fill size base [] rows ≡ ok pre)
  unfolding fill
  fill_page base [] h = ([], [], refl, (λ n. n), refl)
  fill_page base (x ∷ xs) (h, hs) =
      let (pre, post, e, f) = fill_more (base + (size x + 1)) x [] xs in
      let fits : ltb max_read_response (base + (size x + 1)) ≡ false = ground arith in
      (x ∷ pre, post, ap (λ l. x ∷ l) e, (λ n. cc), rw fits f)

pub last_id-append : (pre : List Row) (x : Row) → last_id (pre ++ x ∷ []) ≡ some x.id
unfolding last_id
last_id-append [] x = refl
last_id-append (y ∷ []) x = refl
last_id-append (y ∷ z ∷ ys) x = last_id-append (z ∷ ys) x

-- Behind a row of the table start the rows that follow it.
rows_after-high :
    (s : State) (low r : ℕ) (xs : List Row)
    → r ≤ low
    → Ascending low xs
    → rows_after s r xs ≡ rows_after s 0 xs
unfolding rows_after
rows_after-high s low r [] h a = refl
rows_after-high s low r (x ∷ xs) h (l, ls) = ground (arith, rows_after-high s x.rowid r xs)

rows_after-low :
    (s : State) (low r : ℕ) (xs : List Row)
    → r ≤ low
    → Ascending low xs
    → rows_after s low xs ≡ rows_after s r xs
unfolding rows_after
rows_after-low s low r [] h a = refl
rows_after-low s low r (x ∷ xs) h (l, ls) =
    ground (arith, rows_after-high s x.rowid low xs, rows_after-high s x.rowid r xs)

rowid_of_absent : (id : String) (xs : List Row) → has_id id xs ≡ false → rowid_of id xs ≡ none
unfolding rowid_of has_id
rowid_of_absent id [] h = refl
rowid_of_absent id (x ∷ xs) h = ground (arith, rowid_of_absent id xs)

-- A row that a listing shows is found by its id, and the listing behind it is the rest of this one.
pub rows_after-resume :
    (s : State) (low r : ℕ) (xs pre post : List Row) (x : Row)
    → Ascending low xs
    → DistinctIds xs
    → rows_after s r xs ≡ pre ++ x ∷ post
    → (rowid_of x.id xs ≡ some x.rowid) × (rows_after s x.rowid xs ≡ post) × (low < x.rowid)
unfolding rows_after rowid_of
rows_after-resume s low r [] [] post x a d e = cc
rows_after-resume s low r [] (p ∷ ps) post x a d e = cc
rows_after-resume s low r (y ∷ ys) [] post x (a, as') (d, ds) e = ground (
  arith,
  rows_after-resume s y.rowid r ys [] post x as' ds,
  rows_after-low s y.rowid r ys,
  rowid_of_absent y.id ys d,
  eq_iff y.id x.id,
)
rows_after-resume s low r (y ∷ ys) (p ∷ ps) post x (a, as') (d, ds) e = ground (
  arith,
  rows_after-resume s y.rowid r ys (p ∷ ps) post x as' ds,
  rows_after-resume s y.rowid r ys ps post x as' ds,
  rowid_of_absent y.id ys d,
  eq_iff y.id x.id,
)

-- A cursor that stands for the position `r`.
abbrev pub Resolves : String → List Row → ℕ → Type 0
Resolves after rows r = (if str_eq after "" then some 0 else rowid_of after rows) ≡ some r

cursor-calm :
    (after : String) (db : Db) (r : ℕ)
    → Resolves after db.inbox r
    → cursor after (calm db) ≡ (ok r, calm db)
unfolding cursor ◌>>=◌
cursor-calm after db r h = elim (Bool-cases (str_eq after "")) [
  | inl e ↦ rw e (ground (arith, e, h))
  | inr e ↦ rw e (ground (arith, e, h))
]

row_again-calm :
    (after : String) (db : Db) (r : ℕ)
    → Resolves after db.inbox r
    → row_again after (calm db) ≡ (ok r, calm db)
unfolding row_again ◌>>=◌
row_again-calm after db r h = elim (Bool-cases (str_eq after "")) [
  | inl e ↦ rw e (ground (arith, e, h))
  | inr e ↦ rw e (ground (arith, e, h))
]

count-calm :
    (s : State) (after : String) (db : Db) (r : ℕ)
    → Resolves after db.inbox r
    → count s after (calm db) ≡ (ok (length (rows_after s r db.inbox)), calm db)
unfolding count ◌>>=◌
count-calm s after db r h =
    bind-calm (cursor after) _ db r db (cursor-calm after db r h) ∙ rw count_rows-length

module _ (head_size : ℕ → ℕ) (size : Row → ℕ) where
  pub page-calm :
      (s : State) (after : String) (limit : ℕ) (db : Db) (r : ℕ) (messages : List Row)
      → Resolves after db.inbox r
      → fill size
          (head_size (length (rows_after s r db.inbox)) + 129)
          []
          (take limit (rows_after s r db.inbox))
        ≡ ok messages
      → page head_size size s after limit (calm db)
        ≡ (result_of (length (rows_after s r db.inbox)) messages, calm db)
  unfolding page ◌>>=◌
  page-calm s after limit db r messages h f =
      bind-calm (count s after) _ db _ db (count-calm s after db r h)
      ∙ bind-calm (row_again after) _ db r db (row_again-calm after db r h)
      ∙ rw f
