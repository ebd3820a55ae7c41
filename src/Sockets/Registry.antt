-- ===== src/Sockets/Registry.antt =====
-- Who is registered after `register` and `unregister`.
use wire_server.Prelude.{
  ℕ, String, Bool, true, false, not, ◌||◌, ◌&&◌, Option, none, some, List, [], ◌∷◌, ◌++◌, ◌==◌, ◌≡◌,
  refl, sym, ap, ◌∙◌, nat_eq, arith, eq_iff, inl, inr, Bool-cases, text_cases, if◌then◌else◌,
}
use mathlib.Core.Path.{subst}
use wire_server.Sockets.{
  Clients, SocketHub, find_set, put_set, drop_set, has_conn, delete_conn, conns_of, register_conn,
  settle, unregister_from, unregister_conn,
}

-- Whether a user has a connection.
abbrev pub registered : String → ℕ → SocketHub → Bool
registered u i h = has_conn i (conns_of (find_set u h.clients))

keep_first :
    (b : Bool) (x y z : Option (List ℕ))
    → (if b then x else z) ≡ (if b then x else (if b then y else z))
keep_first true x y z = refl
keep_first false x y z = refl

swap_tests :
    (a b : Bool) (x y z : Option (List ℕ))
    → (a && b) ≡ false
    → (if a then x else (if b then y else z)) ≡ (if b then y else (if a then x else z))
swap_tests true true x y z h = absurd (ground arith)
swap_tests true false x y z h = refl
swap_tests false b x y z h = refl

not_both : (v u w : String) → (v == u) ≡ false → ((v == w) && (u == w)) ≡ false
not_both v u w other = ground (arith, eq_iff v w, eq_iff u w, eq_iff v u)

pub find_set-put_set :
    (w u : String) (set : List ℕ) (cs : Clients)
    → find_set w (put_set u set cs) ≡ (if u == w then some set else find_set w cs)
find_set-put_set w u set [] = refl
find_set-put_set w u set ((v, old) ∷ rest) = elim (text_cases v u) [
  | inl same ↦ rw ((eq_iff v u).1 same) (
      subst
        (λ t.
          (if v == w then some set else find_set w rest)
          ≡ (if t == w then some set else (if v == w then some old else find_set w rest)))
        {x = v} {y = u} same (keep_first (v == w) (some set) (some old) (find_set w rest)))
  | inr (_, other) ↦
      rw (other, find_set-put_set w u set rest)
        (swap_tests (v == w) (u == w) (some old) (some set) (find_set w rest)
          (not_both v u w other))
]

pub none_either : (b : Bool) (z : Option (List ℕ)) → z ≡ none → (if b then none else z) ≡ none
none_either true z h = refl
none_either false z h = h

pub find_set-drop_set :
    (w u : String) (cs : Clients)
    → find_set w (drop_set u cs) ≡ (if u == w then none else find_set w cs)
find_set-drop_set w u [] = sym (none_either (u == w) none refl)
find_set-drop_set w u ((v, old) ∷ rest) = elim (text_cases v u) [
  | inl same ↦
      rw ((eq_iff v u).1 same, find_set-drop_set w u rest)
        (subst
          (λ t.
            (if t == w then none else find_set w rest)
            ≡ (if t == w then none else (if v == w then some old else find_set w rest)))
          {x = v} {y = u} same (keep_first (v == w) none (some old) (find_set w rest)))
  | inr (_, other) ↦
      rw (other, find_set-drop_set w u rest)
        (swap_tests (v == w) (u == w) (some old) none (find_set w rest) (not_both v u w other))
]

pub has_conn-delete_conn :
    (i j : ℕ) (set : List ℕ) → has_conn j (delete_conn i set) ≡ (has_conn j set && not (nat_eq i j))
has_conn-delete_conn i j [] = refl
has_conn-delete_conn i j (k ∷ ks) = elim (Bool-cases (nat_eq k i)) [
  | inl hit ↦ rw hit (ground (arith, has_conn-delete_conn i j ks))
  | inr miss ↦ rw miss (ground (arith, has_conn-delete_conn i j ks))
]

pub has_conn-if :
    (b : Bool) (j : ℕ) (x y : Option (List ℕ))
    → has_conn j (conns_of (if b then x else y))
      ≡ (if b then has_conn j (conns_of x) else has_conn j (conns_of y))
has_conn-if true j x y = refl
has_conn-if false j x y = refl

-- `register` adds the connection to its user's set and changes nobody else's: afterwards a user has a
-- connection if and only if it is this one or the user had it before.
pub register_conn_lem :
    (u w : String) (i j : ℕ) (h : SocketHub)
    → registered w j (register_conn u i h) ≡ (((u == w) && nat_eq i j) || registered w j h)
unfolding register_conn
register_conn_lem u w i j h = elim (text_cases u w) [
  | inl same ↦
      rw (find_set-put_set, (eq_iff u w).1 same, sym same)
        (ground (arith, has_conn-delete_conn i j (conns_of (find_set u h.clients))))
  | inr (_, other) ↦ rw (find_set-put_set, other) refl
]

settle_lem :
    (u w : String) (j : ℕ) (set : List ℕ) (h : SocketHub)
    → registered w j (settle u set h) ≡ (if u == w then has_conn j set else registered w j h)
settle_lem u w j [] h =
    ap (λ o. has_conn j (conns_of o)) (find_set-drop_set w u h.clients)
    ∙ has_conn-if (u == w) j none (find_set w h.clients)
settle_lem u w j (k ∷ ks) h =
    ap (λ o. has_conn j (conns_of o)) (find_set-put_set w u (k ∷ ks) h.clients)
    ∙ has_conn-if (u == w) j (some (k ∷ ks)) (find_set w h.clients)

settle-closed : (u : String) (set : List ℕ) (h : SocketHub) → (settle u set h).closed ≡ h.closed
settle-closed u [] h = refl
settle-closed u (j ∷ js) h = refl

and_true : (b : Bool) → b ≡ (b && true)
and_true true = refl
and_true false = refl

registered-found :
    (u w : String) (j : ℕ) (h : SocketHub) (o : Option (List ℕ))
    → find_set u h.clients ≡ o
    → u ≡ w
    → registered w j h ≡ has_conn j (conns_of o)
registered-found u w j h o found same =
    ap (λ v. registered v j h) (sym same) ∙ ap (λ x. has_conn j (conns_of x)) found

unregister_from_lem :
    (u w : String) (i j : ℕ) (h : SocketHub) (o : Option (List ℕ))
    → find_set u h.clients ≡ o
    → (registered w j (unregister_from u i o h)
        ≡ (registered w j h && not ((u == w) && nat_eq i j)))
      × ((unregister_from u i o h).closed
          ≡ (if registered u i h then h.closed ++ i ∷ [] else h.closed))
unregister_from_lem u w i j h none found = (
  elim (text_cases u w) [
    | inl same ↦ rw (registered-found u w j h none found same) refl
    | inr (_, other) ↦ rw other (and_true (registered w j h))
  ],
  rw found refl,
)
unregister_from_lem u w i j h (some set) found =
    let h' : SocketHub = record h {
      closed = if has_conn i set then h.closed ++ i ∷ [] else h.closed;
    } in
    (
      settle_lem u w j (delete_conn i set) h' ∙ elim (text_cases u w) [
        | inl same ↦
            rw ((eq_iff u w).1 same, registered-found u w j h (some set) found same)
              (has_conn-delete_conn i j set)
        | inr (_, other) ↦ rw other (and_true (registered w j h))
      ],
      settle-closed u (delete_conn i set) h' ∙ rw found refl,
    )

-- `unregister` takes the connection from its user's set and changes nobody else's, and closes its
-- channel if and only if it was registered, so a channel is not closed a second time.
pub unregister_conn_lem :
    (u w : String) (i j : ℕ) (h : SocketHub)
    → (registered w j (unregister_conn u i h) ≡ (registered w j h && not ((u == w) && nat_eq i j)))
      × ((unregister_conn u i h).closed
          ≡ (if registered u i h then h.closed ++ i ∷ [] else h.closed))
unfolding unregister_conn
unregister_conn_lem u w i j h = unregister_from_lem u w i j h (find_set u h.clients) refl
