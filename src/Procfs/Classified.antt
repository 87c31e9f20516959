-- ===== src/Procfs/Classified.antt =====
-- What `readConnectionSockets` finds for the descriptors of a process.
use cross_session_codex.Common.{
  ℕ, ◌≡◌, refl, subst, true, List, [], ◌∷◌, some, ◌==◌, ==_iff, arith, Bool-cases, inl, inr, length,
  Bytes, codes, All, All-map,
}
use cross_session_codex.Bytes.{has_byte}
use cross_session_codex.Path.{starts_with}
use cross_session_codex.Procfs.{Socket, is_some, look_up, bind-some, require-some}
use cross_session_codex.Procfs.Tables.{parse_unix}
use cross_session_codex.Procfs.Protocols.{tcp, tcp6, udp, udp6, netlink}
use cross_session_codex.Procfs.Sockets.{
  link_inode, add_wanted, wanted_by, wanted_sockets, of_unix, search_tables, Tables, unix_content,
  read_sockets,
}
use cross_session_codex.Procfs.Found.{
  Inventory, Fits, found_all, of_unix-Fits, search_tables-Fits, same_found,
}

-- A descriptor that is a socket has an inode among the wanted ones.
abbrev IsWanted : List ℕ → Bytes × Bytes → Type 0
IsWanted wanted (name, target) =
    starts_with (codes "socket:") target ≡ true
    → (j : ℕ) × (link_inode (codes "socket") target ≡ some j) × (has_byte j wanted ≡ true)

-- What is wanted stays wanted.
abbrev Keeps : List ℕ → List ℕ → Type 0
Keeps before after = (j : ℕ) → has_byte j before ≡ true → has_byte j after ≡ true

IsWanted-kept :
    (before after : List ℕ)
    → Keeps before after
    → (d : Bytes × Bytes) → IsWanted before d
    → IsWanted after d
IsWanted-kept before after keep (name, target) h s = let (j, e, k) = h s in (j, e, keep j k)

add_wanted-has : (i : ℕ) (wanted : List ℕ) → has_byte i (add_wanted i wanted) ≡ true
add_wanted-has i wanted = elim (Bool-cases (has_byte i wanted)) [
  | inl e ↦ rw e e
  | inr e ↦ rw e (rw ((==_iff i i).1 refl) refl)
]

add_wanted-Keeps : (i : ℕ) (wanted : List ℕ) → Keeps wanted (add_wanted i wanted)
add_wanted-Keeps i wanted j h = elim (Bool-cases (has_byte i wanted)) [
  | inl e ↦ rw e h
  | inr e ↦ rw e (ground (arith, h))
]

same_list : {a b : List ℕ} → some a ≡ some b → a ≡ b
same_list h = cc

wanted_by-Keeps :
    (name target : Bytes) (wanted now : List ℕ)
    → wanted_by target wanted ≡ some now
    → Keeps wanted now × IsWanted now (name, target)
wanted_by-Keeps name target wanted now h =
    elim (Bool-cases (starts_with (codes "socket:") target)) [
      | inr e ↦ (subst (Keeps wanted) (same_list (rw e at h)) (λ j k. k), λ s. absurd cc)
      | inl e ↦
          let (i, k, rest) = bind-some (link_inode (codes "socket") target) _ now (rw e at h) in
          let same : add_wanted i wanted ≡ now = same_list rest in
          (
            subst (Keeps wanted) same (add_wanted-Keeps i wanted),
            λ s. (i, k, subst (λ (x : List ℕ). has_byte i x ≡ true) same (add_wanted-has i wanted)),
          )
    ]

wanted_sockets-Keeps :
    (fds : List (Bytes × Bytes)) (wanted later : List ℕ)
    → wanted_sockets fds wanted ≡ some later
    → Keeps wanted later × All (IsWanted later) fds
unfolding wanted_sockets
wanted_sockets-Keeps [] wanted later h = (subst (Keeps wanted) (same_list h) (λ j k. k), tt)
wanted_sockets-Keeps ((name, target) ∷ fds) wanted later h =
    let (now, e, rest) = bind-some (wanted_by target wanted) (wanted_sockets fds) later h in
    let (keep, here) = wanted_by-Keeps name target wanted now e in
    let (keep_later, all) = wanted_sockets-Keeps fds now later rest in
    (λ j k. keep_later j (keep j k), (IsWanted-kept now later keep_later (name, target) here, all))

-- A descriptor that is a socket has its entry in the inventory.
abbrev pub IsClassified : List (ℕ × Socket) → Bytes × Bytes → Type 0
IsClassified inventory (name, target) =
    starts_with (codes "socket:") target ≡ true
    → (j : ℕ) × (link_inode (codes "socket") target ≡ some j)
      × (is_some (look_up ◌==◌ j inventory) ≡ true)

-- If readConnectionSockets answers, whatever the tables hold, then every descriptor of the process whose
-- link is one of a socket has a sound inode, and the inventory has an entry for that inode.
pub read_sockets-AreClassified :
    (fds : List (Bytes × Bytes)) (tables : Tables) (inventory : List (ℕ × Socket))
    → read_sockets fds tables ≡ some inventory
    → All (IsClassified inventory) fds
unfolding read_sockets
read_sockets-AreClassified fds tables inventory h =
    let (wanted, w, h1) = bind-some (wanted_sockets fds []) _ inventory h in
    let (content, c, h2) = bind-some (unix_content tables.unix) _ inventory h1 in
    let (table, t, h3) = bind-some (parse_unix content) _ inventory h2 in
    let (found, f, h4) =
      bind-some
        (search_tables tables.other wanted (tcp ∷ tcp6 ∷ udp ∷ udp6 ∷ netlink ∷ [])
          (of_unix table wanted))
        _ inventory h3 in
    let (size, h5) = require-some (length found == length wanted) _ inventory h4 in
    let fits : Fits wanted inventory = subst (Fits wanted) (same_found h5) (
      search_tables-Fits tables.other wanted (tcp ∷ tcp6 ∷ udp ∷ udp6 ∷ netlink ∷ [])
        (of_unix table wanted) found (of_unix-Fits table wanted) f) in
    let same : length inventory ≡ length wanted =
      subst (λ (x : Inventory). length x ≡ length wanted) (same_found h5)
        ((==_iff (length found) (length wanted)).0 size) in
    All-map
      (λ d k s.
        let (j, e, m) = k s in (j, e, found_all inventory wanted j (omega (arith, fits, same)) m))
      fds ((wanted_sockets-Keeps fds [] wanted w).1)
