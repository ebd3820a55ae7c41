-- ===== src/Sockets/Loop/Sets.antt =====
-- The table of the hub as a collection: one entry a user, and in it each connection once.
use wire_server.Prelude.{
  ℕ, String, Bool, true, false, ◌||◌, Option, none, some, List, [], ◌∷◌, ◌++◌, ◌==◌, ◌≡◌, refl, sym,
  ap, ◌∙◌, ◌⊎◌, inl, inr, nat_eq, arith, eq_iff, eq_refl, Bool-cases, text_cases,
}
use wire_server.Sockets.{
  Clients, SocketHub, settle, unregister_from, unregister_conn, register_conn, find_set, put_set,
  drop_set, has_conn, delete_conn, conns_of, send_set, send_all, send_users, deliver_outbound,
}
use wire_server.Sockets.Registry.{
  find_set-put_set, find_set-drop_set, none_either, has_conn-delete_conn,
}
use wire_server.Sockets.Loop.{never}

abbrev pub Distinct : List ℕ → Type 0
Distinct [] = Unit
Distinct (i ∷ is) = (has_conn i is ≡ false) × Distinct is

-- No user has two entries.
abbrev pub Keyed : Clients → Type 0
Keyed [] = Unit
Keyed ((u, set) ∷ rest) = (find_set u rest ≡ none) × Keyed rest

-- Whether the table has a connection under a user.
abbrev pub holds : String → ℕ → Clients → Bool
holds u i cs = has_conn i (conns_of (find_set u cs))

pub has_conn-append :
    (j : ℕ) (xs ys : List ℕ) → has_conn j (xs ++ ys) ≡ (has_conn j xs || has_conn j ys)
has_conn-append j [] ys = refl
has_conn-append j (x ∷ xs) ys = ground (arith, has_conn-append j xs ys)

pub Distinct-append :
    (xs ys : List ℕ)
    → Distinct xs
    → Distinct ys
    → ((j : ℕ) → has_conn j xs ≡ true → has_conn j ys ≡ false)
    → Distinct (xs ++ ys)
Distinct-append [] ys dx dy apart = dy
Distinct-append (x ∷ xs) ys (fresh, dx) dy apart = (
  ground (arith, has_conn-append x xs ys, apart x),
  Distinct-append xs ys dx dy (λ j h. apart j (ground arith)),
)

Distinct-delete_conn : (i : ℕ) (xs : List ℕ) → Distinct xs → Distinct (delete_conn i xs)
Distinct-delete_conn i [] d = tt
Distinct-delete_conn i (x ∷ xs) (fresh, d) = elim (Bool-cases (nat_eq x i)) [
  | inl hit ↦ rw hit (Distinct-delete_conn i xs d)
  | inr miss ↦ rw miss (ground (arith, has_conn-delete_conn i x xs), Distinct-delete_conn i xs d)
]

Keyed-put_set : (u : String) (set : List ℕ) (cs : Clients) → Keyed cs → Keyed (put_set u set cs)
Keyed-put_set u set [] k = (refl, tt)
Keyed-put_set u set ((v, old) ∷ rest) (alone, k) = elim (text_cases v u) [
  | inl same ↦ rw ((eq_iff v u).1 same) (alone, k)
  | inr (_, other) ↦ rw other (
    rw (find_set-put_set v u set rest) (ground (arith, eq_iff u v, eq_iff v u)),
    Keyed-put_set u set rest k,
  )
]

Keyed-drop_set : (u : String) (cs : Clients) → Keyed cs → Keyed (drop_set u cs)
Keyed-drop_set u [] k = tt
Keyed-drop_set u ((v, old) ∷ rest) (alone, k) = elim (text_cases v u) [
  | inl same ↦ rw ((eq_iff v u).1 same) (Keyed-drop_set u rest k)
  | inr (_, other) ↦
      rw other
        (rw (find_set-drop_set v u rest) (none_either (u == v) _ alone), Keyed-drop_set u rest k)
]

-- What the rest of the table finds, the table finds.
find_set-tail :
    (w u : String) (set : List ℕ) (rest : Clients)
    → find_set u rest ≡ none
    → (find_set w rest ≡ none) ⊎ (find_set w ((u, set) ∷ rest) ≡ find_set w rest)
find_set-tail w u set rest alone = elim (text_cases u w) [
  | inl same ↦ inl (rw (← same) alone)
  | inr (_, other) ↦ inr (rw other refl)
]

holds-tail :
    (w u : String) (j : ℕ) (set : List ℕ) (rest : Clients)
    → find_set u rest ≡ none
    → holds w j rest ≡ true
    → holds w j ((u, set) ∷ rest) ≡ true
holds-tail w u j set rest alone h = elim (find_set-tail w u set rest alone) [
  | inl missing ↦ absurd (cc (sym h ∙ ap (λ o. has_conn j (conns_of o)) missing))
  | inr same ↦ ap (λ o. has_conn j (conns_of o)) same ∙ h
]

holds-head :
    (u : String) (j : ℕ) (set : List ℕ) (rest : Clients)
    → holds u j ((u, set) ∷ rest) ≡ has_conn j set
holds-head u j set rest = rw (eq_refl u) refl

send_set-never : (set : List ℕ) → send_set never set ≡ set
send_set-never [] = refl
send_set-never (i ∷ is) = ap (◌∷◌ i) (send_set-never is)

-- Whoever `deliver` or `closeAll` comes to is in the table.
pub send_all-holds :
    (j : ℕ) (cs : Clients)
    → Keyed cs
    → has_conn j (send_all never cs) ≡ true
    → (u : String) × (holds u j cs ≡ true)
send_all-holds j [] k h = absurd (cc h)
send_all-holds j ((u, set) ∷ rest) (alone, k) h = elim (Bool-cases (has_conn j set)) [
  | inl here ↦ (u, holds-head u j set rest ∙ here)
  | inr elsewhere ↦
      let (w, found) = send_all-holds j rest k (
        ground (
          arith,
          ap (has_conn j) (send_set-never set),
          has_conn-append j (send_set never set) (send_all never rest),
        )) in
      (w, holds-tail w u j set rest alone found)
]

send_users-holds :
    (j : ℕ) (us : List String) (cs : Clients)
    → has_conn j (send_users never us cs) ≡ true
    → (u : String) × (holds u j cs ≡ true)
send_users-holds j [] cs h = absurd (cc h)
send_users-holds j (u ∷ us) cs h = elim (Bool-cases (holds u j cs)) [
  | inl here ↦ (u, here)
  | inr elsewhere ↦ send_users-holds j us cs (
      ground (
        arith,
        ap (has_conn j) (send_set-never (conns_of (find_set u cs))),
        has_conn-append j (send_set never (conns_of (find_set u cs))) (send_users never us cs),
      ))
]

pub deliver_outbound-holds :
    (j : ℕ) (us : List String) (cs : Clients)
    → Keyed cs
    → has_conn j (deliver_outbound never us cs) ≡ true
    → (u : String) × (holds u j cs ≡ true)
unfolding deliver_outbound
deliver_outbound-holds j [] cs k h = send_all-holds j cs k h
deliver_outbound-holds j (u ∷ us) cs k h = send_users-holds j (u ∷ us) cs h

Distinct-tail :
    (w u : String) (set : List ℕ) (rest : Clients)
    → find_set u rest ≡ none
    → Distinct (conns_of (find_set w ((u, set) ∷ rest)))
    → Distinct (conns_of (find_set w rest))
Distinct-tail w u set rest alone d = elim (find_set-tail w u set rest alone) [
  | inl missing ↦ rw missing tt
  | inr same ↦ rw (← same) d
]

-- Where every connection stands under its owner only, the table names each once.
pub Distinct-send_all :
    (owner : ℕ → String) (cs : Clients)
    → Keyed cs
    → ((u : String) → Distinct (conns_of (find_set u cs)))
    → ((u : String) (j : ℕ) → holds u j cs ≡ true → owner j ≡ u)
    → Distinct (send_all never cs)
Distinct-send_all owner [] k sets owned = tt
Distinct-send_all owner ((u, set) ∷ rest) (alone, k) sets owned =
    let head : Distinct set = rw (eq_refl u) at (sets u) in
    let tail : Distinct (send_all never rest) =
      Distinct-send_all owner rest k (λ w. Distinct-tail w u set rest alone (sets w))
        (λ w j h. owned w j (holds-tail w u j set rest alone h)) in
    rw (send_set-never set) (
      Distinct-append set (send_all never rest) head tail (λ j here.
        elim (Bool-cases (has_conn j (send_all never rest))) [
          | inl there ↦
              let (w, found) = send_all-holds j rest k there in
              let same : u ≡ w =
                sym (owned u j (holds-head u j set rest ∙ here))
                ∙ owned w j (holds-tail w u j set rest alone found) in
              absurd (
                cc (
                  sym found
                  ∙ ap (λ v. holds v j rest) (sym same)
                  ∙ ap (λ o. has_conn j (conns_of o)) alone))
          | inr apart ↦ apart
        ]))

-- Every user's set names each connection once.
abbrev pub Sets : Clients → Type 0
Sets cs = (u : String) → Distinct (conns_of (find_set u cs))

pub Sets-put_set :
    (u : String) (set : List ℕ) (cs : Clients) → Distinct set → Sets cs → Sets (put_set u set cs)
Sets-put_set u set cs d sets w = elim (text_cases u w) [
  | inl same ↦ rw (find_set-put_set w u set cs, (eq_iff u w).1 same) d
  | inr (_, other) ↦ rw (find_set-put_set w u set cs, other) (sets w)
]

Sets-drop_set : (u : String) (cs : Clients) → Sets cs → Sets (drop_set u cs)
Sets-drop_set u cs sets w = elim (text_cases u w) [
  | inl same ↦ rw (find_set-drop_set w u cs, (eq_iff u w).1 same) tt
  | inr (_, other) ↦ rw (find_set-drop_set w u cs, other) (sets w)
]

settle_tables :
    (u : String) (set : List ℕ) (h : SocketHub)
    → Distinct set
    → Keyed h.clients
    → Sets h.clients
    → Keyed (settle u set h).clients × Sets (settle u set h).clients
settle_tables u [] h d k sets = (Keyed-drop_set u h.clients k, Sets-drop_set u h.clients sets)
settle_tables u (j ∷ js) h d k sets =
    (Keyed-put_set u (j ∷ js) h.clients k, Sets-put_set u (j ∷ js) h.clients d sets)

unregister_from_tables :
    (u : String) (i : ℕ) (h : SocketHub) (o : Option (List ℕ))
    → Distinct (conns_of o)
    → Keyed h.clients
    → Sets h.clients
    → Keyed (unregister_from u i o h).clients × Sets (unregister_from u i o h).clients
unregister_from_tables u i h none d k sets = (k, sets)
unregister_from_tables u i h (some set) d k sets =
    settle_tables u (delete_conn i set) _ (Distinct-delete_conn i set d) k sets

-- `unregister` keeps one entry a user and each connection once in it.
pub unregister_conn_tables :
    (u : String) (i : ℕ) (h : SocketHub)
    → Keyed h.clients
    → Sets h.clients
    → Keyed (unregister_conn u i h).clients × Sets (unregister_conn u i h).clients
unfolding unregister_conn
unregister_conn_tables u i h k sets =
    unregister_from_tables u i h (find_set u h.clients) (sets u) k sets

-- So does `register`.
pub register_conn_tables :
    (u : String) (i : ℕ) (h : SocketHub)
    → Keyed h.clients
    → Sets h.clients
    → Keyed (register_conn u i h).clients × Sets (register_conn u i h).clients
unfolding register_conn
register_conn_tables u i h k sets =
    let old = conns_of (find_set u h.clients) in
    let fresh : has_conn i (delete_conn i old) ≡ false =
      ground (arith, has_conn-delete_conn i i old) in
    (
      Keyed-put_set u (i ∷ delete_conn i old) h.clients k,
      Sets-put_set u (i ∷ delete_conn i old) h.clients (fresh, Distinct-delete_conn i old (sets u))
          sets,
    )
