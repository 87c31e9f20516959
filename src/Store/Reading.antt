-- ===== src/Store/Reading.antt =====
-- store.go: a reader that follows the cursors of `Page` gets every message of a state, once and in
-- the order of arrival.
use mathlib.Core.Path.{subst}
use cross_session_codex.Common.{
  lt→ltb, ◌-◌, ℕ, zero, suc, ◌+◌, ◌<◌, ◌≡◌, ◌≢◌, refl, sym, ap, ◌∙◌, String, true, false, List, [],
  ◌∷◌, ◌++◌, append-nil, append_assoc, Option, none, some, arith, ltb, str_eq, ◌&&◌, Bool,
  if◌then◌else◌, length, length-append, take, drop, All,
}
use cross_session_codex.Sql.{out_of_range, ok, Sql, pure, raise, ◌>>=◌, calm}
use cross_session_codex.Sql.Calm.{bind-calm}
use cross_session_codex.Store.{Db, Row, State, same}
use cross_session_codex.Store.Rows.{rows_after}
use cross_session_codex.Store.Page.{PageResult, result_of, page}
use cross_session_codex.Store.Validity.{Ascending, DistinctIds}
use cross_session_codex.Store.Paging.{
  Fits, Resolves, fill_page, page-calm, rows_after-resume, last_id-append,
}

module _ (P : Row → Type 0) where
  All-if : (b : Bool) (xs ys : List Row) → All P xs → All P ys → All P (if b then xs else ys)
  All-if true xs ys hx hy = hx
  All-if false xs ys hx hy = hy

  All-rows_after : (s : State) (r : ℕ) (xs : List Row) → All P xs → All P (rows_after s r xs)
  unfolding rows_after
  All-rows_after s r [] h = tt
  All-rows_after s r (x ∷ xs) (h, hs) =
      let rest = All-rows_after s r xs hs in
      All-if (same x.state s && ltb r x.rowid) (x ∷ rows_after s r xs) _ (h, rest) rest

  All-take : (n : ℕ) (xs : List Row) → All P xs → All P (take n xs)
  All-take zero xs h = tt
  All-take (suc n) [] h = tt
  All-take (suc n) (x ∷ xs) (h, hs) = (h, All-take n xs hs)

  All-middle : (pre post : List Row) (x : Row) → All P (pre ++ x ∷ post) → P x
  All-middle [] post x h = h.0
  All-middle (y ∷ ys) post x h = All-middle ys post x h.1

take-append-drop : (n : ℕ) (xs : List Row) → take n xs ++ drop n xs ≡ xs
take-append-drop zero xs = refl
take-append-drop (suc n) [] = refl
take-append-drop (suc n) (x ∷ xs) = ap (λ l. x ∷ l) (take-append-drop n xs)

take-ne-nil : (n : ℕ) (xs : List Row) → 0 < n → xs ≢ [] → take n xs ≢ []
take-ne-nil zero xs h k = absurd (omega arith)
take-ne-nil (suc n) [] h k = absurd (k refl)
take-ne-nil (suc n) (x ∷ xs) h k = λ e. cc

-- The last item of a list that has one.
last : (xs : List Row) → xs ≢ [] → (init : List Row) × (x : Row) × (xs ≡ init ++ x ∷ [])
last [] h = absurd (h refl)
last (x ∷ []) h = ([], x, refl)
last (x ∷ y ∷ ys) h = let (init, z, e) = last (y ∷ ys) (λ n. cc) in (x ∷ init, z, ap (λ l. x ∷ l) e)

append_cons-ne-nil : (xs ys : List Row) (y : Row) → xs ++ y ∷ ys ≢ []
append_cons-ne-nil [] ys y = λ e. cc
append_cons-ne-nil (x ∷ xs) ys y = λ e. cc

-- The page that ends a listing, and one that is followed by others.
abbrev last_page : List Row → PageResult
last_page messages = record {
  messages = messages;
  remaining = length messages - length messages;
  has_more = false;
  next_after = none;
}

result_of_last :
    (messages : List Row) → result_of (length messages) messages ≡ ok (last_page messages)
unfolding result_of
result_of_last messages =
    let e : ltb (length messages) (length messages) ≡ false = ground arith in rw e

abbrev inner_page : ℕ → List Row → Row → PageResult
inner_page n init x = record {
  messages = init ++ x ∷ [];
  remaining = n - length (init ++ x ∷ []);
  has_more = true;
  next_after = some x.id;
}

result_of_inner :
    (n : ℕ) (init : List Row) (x : Row)
    → length (init ++ x ∷ []) < n
    → result_of n (init ++ x ∷ []) ≡ ok (inner_page n init x)
unfolding result_of
result_of_inner n init x h = rw (lt→ltb _ _ h, last_id-append)

-- What the reader does with a page: it stops, or reads on behind it.
follow : List Row → Option String → (String → Sql Db (List Row)) → Sql Db (List Row)
follow messages none next = pure messages
follow messages (some id) next = do rest ← next id; pure (messages ++ rest)

module _ (head_size : ℕ → ℕ) (size : Row → ℕ) (s : State) (limit : ℕ) where
  -- Pages from a cursor on, until one names no next cursor.
  pub walk : ℕ → String → Sql Db (List Row)
  walk zero after = raise out_of_range
  walk (suc fuel) after = do
    p ← page head_size size s after limit
    follow p.messages p.next_after (walk fuel)

  module _ (db : Db) (ascending : Ascending 0 db.inbox) (distinct : DistinctIds db.inbox)
      (named : All (λ x. str_eq x.id "" ≡ false) db.inbox)
      (fits : (n : ℕ) → All (Fits size (head_size n + 129)) db.inbox) (positive : 0 < limit) where
    -- The page in front of the rows `post`, and what the reader has after them.
    walk-page :
        (fuel r : ℕ) (after : String) (pre post : List Row)
        → Resolves after db.inbox r
        → rows_after s r db.inbox ≡ pre ++ post
        → (rows_after s r db.inbox ≢ [] → pre ≢ [])
        → page head_size size s after limit (calm db)
          ≡ (result_of (length (rows_after s r db.inbox)) pre, calm db)
        → ((id : String) (r' : ℕ)
            → Resolves id db.inbox r'
            → rows_after s r' db.inbox ≡ post
            → length post < length (rows_after s r db.inbox)
            → walk fuel id (calm db) ≡ (ok post, calm db))
        → walk (suc fuel) after (calm db) ≡ (ok (rows_after s r db.inbox), calm db)
    unfolding walk follow ◌>>=◌
    walk-page fuel r after pre [] h e some_pre p ih =
        let whole : rows_after s r db.inbox ≡ pre = e ∙ append-nil pre in
        bind-calm (page head_size size s after limit) _ db (last_page pre) db
          (p ∙ ap (λ (l : List Row). (result_of (length l) pre, calm db)) whole ∙ rw result_of_last)
        ∙ rw whole
    walk-page fuel r after pre (y ∷ ys) h e some_pre p ih =
        let ne : rows_after s r db.inbox ≢ [] = rw e (append_cons-ne-nil pre ys y) in
        let (init, x, f) = last pre (some_pre ne) in
        let n = length (rows_after s r db.inbox) in
        let rest : rows_after s r db.inbox ≡ init ++ x ∷ y ∷ ys =
          e ∙ ap (λ l. l ++ y ∷ ys) f ∙ append_assoc init (x ∷ []) (y ∷ ys) in
        let (found, behind, _) =
          rows_after-resume s 0 r db.inbox init (y ∷ ys) x ascending distinct rest in
        let name : str_eq x.id "" ≡ false =
          All-middle _ init (y ∷ ys) x (
            subst (All (λ z. str_eq z.id "" ≡ false)) rest (All-rows_after _ s r db.inbox named)) in
        let shorter : length (init ++ x ∷ []) < n =
          omega
            (arith, ap length rest, length-append init (x ∷ []), length-append init (x ∷ y ∷ ys)) in
        bind-calm (page head_size size s after limit) _ db (inner_page n init x) db (
          p
          ∙ ap (λ (l : List Row). (result_of n l, calm db)) f
          ∙ rw (result_of_inner n init x shorter))
        ∙ bind-calm (walk fuel x.id) (λ l. pure ((init ++ x ∷ []) ++ l)) db (y ∷ ys) db
            (ih x.id x.rowid (rw name found) behind
              (omega (arith, ap length rest, length-append init (x ∷ y ∷ ys))))
        ∙ rw (rest, append_assoc)

    -- Following the cursors from any position yields the rows behind it.
    walk-calm :
        (fuel r : ℕ) (after : String)
        → Resolves after db.inbox r
        → length (rows_after s r db.inbox) < fuel
        → walk fuel after (calm db) ≡ (ok (rows_after s r db.inbox), calm db)
    walk-calm zero r after h enough = absurd (omega arith)
    walk-calm (suc fuel) r after h enough =
        let rest = rows_after s r db.inbox in
        let here = All-take _ limit rest (All-rows_after _ s r db.inbox (fits (length rest))) in
        let (pre, post, e, some_pre, f) =
          fill_page size (head_size (length rest) + 129) (take limit rest) here in
        let split : rest ≡ pre ++ (post ++ drop limit rest) =
          sym (take-append-drop limit rest)
          ∙ ap (λ l. l ++ drop limit rest) e
          ∙ append_assoc pre post (drop limit rest) in
        walk-page fuel r after pre (post ++ drop limit rest) h split
          (λ ne. some_pre (take-ne-nil limit rest positive ne))
          (page-calm head_size size s after limit db r pre h f)
          (λ id r' h' behind less.
            rw (← behind) (walk-calm fuel r' id h' (omega (arith, ap length behind, less, enough))))

-- No statement failing, ids distinct and not empty, rowids ascending, and every message small enough for a page of its own: a reader that asks for
-- at least one message a page and follows the cursors ends, and has every message of the state once,
-- in the order of arrival, after at most one page more than there are messages.
pub walk_complete :
    (head_size : ℕ → ℕ) (size : Row → ℕ) (s : State) (limit : ℕ) (db : Db)
    → Ascending 0 db.inbox
    → DistinctIds db.inbox
    → All (λ x. str_eq x.id "" ≡ false) db.inbox
    → ((n : ℕ) → All (Fits size (head_size n + 129)) db.inbox)
    → 0 < limit
    → walk head_size size s limit (length (rows_after s 0 db.inbox) + 1) "" (calm db)
      ≡ (ok (rows_after s 0 db.inbox), calm db)
walk_complete head_size size s limit db a d n f p =
    walk-calm head_size size s limit db a d n f p _ 0 "" refl (omega arith)
