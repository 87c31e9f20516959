-- ===== src/Procfs/Found.antt =====
-- How many of the wanted sockets the search of the tables finds.
use cross_session_codex.Common.{
  ℕ, suc, ◌≤◌, ◌≡◌, refl, sym, subst, Bool, true, false, List, [], ◌∷◌, Option, none, some, ◌==◌,
  ==_iff, arith, Bool-cases, inl, inr, if◌then◌else◌, length,
}
use cross_session_codex.Bytes.{has_byte}
use cross_session_codex.Procfs.{Socket, Read, holds, missing, refused, is_some, look_up, bind-some}
use cross_session_codex.Procfs.Protocols.{Protocol, parse_other}
use cross_session_codex.Procfs.Sockets.{
  of_unix, add_found, plain_socket, add_one, add_inodes, add_table, search_tables,
}

abbrev pub Inventory : Type 0
Inventory = List (ℕ × Socket)

abbrev pub has : ℕ → Inventory → Bool
has i found = is_some (look_up ◌==◌ i found)

-- How many of the wanted inodes are found.
abbrev pub hits : Inventory → List ℕ → ℕ
hits found [] = 0
hits found (w ∷ ws) = let rest = hits found ws in if has w found then suc rest else rest

-- Every entry that is found is one that is wanted.
abbrev pub Fits : List ℕ → Inventory → Type 0
Fits wanted found = length found ≤ hits found wanted

hits-more :
    (i : ℕ) (s : Socket) (found : Inventory) (ws : List ℕ)
    → hits found ws ≤ hits ((i, s) ∷ found) ws
hits-more i s found [] = omega arith
hits-more i s found (w ∷ ws) = elim (Bool-cases (i == w)) [
  | inl e ↦ rw e (ground (arith, hits-more i s found ws))
  | inr e ↦ rw e (ground (arith, hits-more i s found ws))
]

hits-new :
    (i : ℕ) (s : Socket) (found : Inventory) (ws : List ℕ)
    → has_byte i ws ≡ true
    → has i found ≡ false
    → suc (hits found ws) ≤ hits ((i, s) ∷ found) ws
hits-new i s found [] h k = absurd cc
hits-new i s found (w ∷ ws) h k = elim (Bool-cases (w == i)) [
  | inl e ↦
      let same : i ≡ w = sym ((==_iff w i).0 e) in
      let new : has w found ≡ false = subst (λ (x : ℕ). has x found ≡ false) same k in
      let at : (i == w) ≡ true = (==_iff i w).1 same in
      rw (new, at) (omega (arith, hits-more i s found ws))
  | inr e ↦
      let at : (i == w) ≡ false = ground (arith, e, ==_iff i w, ==_iff w i) in
      rw at (ground (arith, e, hits-new i s found ws (rw e at h) k))
]

add_found-Fits :
    (w : ℕ) (ws : List ℕ) (o : Option Socket) (found : Inventory)
    → Fits ws found
    → Fits (w ∷ ws) (add_found w o found)
add_found-Fits w ws none found h = ground (arith, h)
add_found-Fits w ws (some s) found h =
    rw ((==_iff w w).1 refl) (omega (arith, h, hits-more w s found ws))

pub of_unix-Fits : (table : Inventory) (ws : List ℕ) → Fits ws (of_unix table ws)
of_unix-Fits table [] = omega arith
of_unix-Fits table (w ∷ ws) =
    add_found-Fits w ws (look_up ◌==◌ w table) (of_unix table ws) (of_unix-Fits table ws)

pub same_found : {a b : Inventory} → some a ≡ some b → a ≡ b
same_found h = cc

add_one-Fits :
    (table : Protocol) (wanted : List ℕ) (i : ℕ) (found later : Inventory)
    → Fits wanted found
    → add_one table wanted i found ≡ some later
    → Fits wanted later
add_one-Fits table wanted i found later f h = elim (Bool-cases (has_byte i wanted)) [
  | inr e ↦ subst (Fits wanted) (same_found (rw e at h)) f
  | inl e ↦ elim (Bool-cases (has i found)) [
    | inl k ↦
        let none_left : ◌≡◌ {A = Option Inventory} none (some later) = rw (e, k) at h in absurd cc
    | inr k ↦
        subst (Fits wanted) (same_found (rw (e, k) at h))
          (omega (arith, f, hits-new i (plain_socket table) found wanted e k))
  ]
]

add_inodes-Fits :
    (table : Protocol) (wanted inodes : List ℕ) (found later : Inventory)
    → Fits wanted found
    → add_inodes table wanted inodes found ≡ some later
    → Fits wanted later
add_inodes-Fits table wanted [] found later f h = subst (Fits wanted) (same_found h) f
add_inodes-Fits table wanted (i ∷ inodes) found later f h =
    let (now, e, rest) =
      bind-some (add_one table wanted i found) (add_inodes table wanted inodes) later h in
    add_inodes-Fits table wanted inodes now later (add_one-Fits table wanted i found now f e) rest

add_table-Fits :
    (table : Protocol) (wanted : List ℕ) (r : Read) (found later : Inventory)
    → Fits wanted found
    → add_table table wanted r found ≡ some later
    → Fits wanted later
add_table-Fits table wanted missing found later f h = subst (Fits wanted) (same_found h) f
add_table-Fits table wanted refused found later f h = absurd cc
add_table-Fits table wanted (holds content) found later f h =
    let (inodes, e, rest) = bind-some (parse_other content table) _ later h in
    add_inodes-Fits table wanted inodes found later f rest

pub search_tables-Fits :
    (read : Protocol → Read) (wanted : List ℕ) (tables : List Protocol) (found later : Inventory)
    → Fits wanted found
    → search_tables read wanted tables found ≡ some later
    → Fits wanted later
unfolding search_tables
search_tables-Fits read wanted [] found later f h = subst (Fits wanted) (same_found h) f
search_tables-Fits read wanted (table ∷ tables) found later f h =
    elim (Bool-cases (length found == length wanted)) [
      | inl e ↦ subst (Fits wanted) (same_found (rw e at h)) f
      | inr e ↦
          let (now, k, rest) =
            bind-some (add_table table wanted (read table) found) (search_tables read wanted tables)
              later (rw e at h) in
          search_tables-Fits read wanted tables now later
            (add_table-Fits table wanted (read table) found now f k) rest
    ]

hits-length : (found : Inventory) (ws : List ℕ) → hits found ws ≤ length ws
hits-length found [] = omega arith
hits-length found (w ∷ ws) = ground (arith, hits-length found ws)

-- Where as many entries are found as are wanted, each wanted one is found.
pub found_all :
    (found : Inventory) (ws : List ℕ) (j : ℕ)
    → length ws ≤ hits found ws
    → has_byte j ws ≡ true
    → has j found ≡ true
found_all found [] j h m = absurd cc
found_all found (w ∷ ws) j h m = elim (Bool-cases (has w found)) [
  | inr e ↦ absurd (omega (arith, (rw e at h), hits-length found ws))
  | inl e ↦ elim (Bool-cases (w == j)) [
    | inl k ↦ subst (λ (x : ℕ). has x found ≡ true) ((==_iff w j).0 k) e
    | inr k ↦
        let rest : suc (length ws) ≤ suc (hits found ws) = rw e at h in
        found_all found ws j (omega (arith, rest)) (rw k at m)
  ]
]
