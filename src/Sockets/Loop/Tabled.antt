-- ===== src/Sockets/Loop/Tabled.antt =====
-- Which connections the hub's table names while the steps go on.
use wire_server.Prelude.{
  ℕ, String, Bool, true, false, not, ◌||◌, ◌&&◌, ◌==◌, ◌≡◌, refl, sym, ap, ◌∙◌, inl, inr, nat_eq,
  arith, eq_iff, Bool-cases, text_cases,
}
use wire_server.Sockets.{register_conn, unregister_conn}
use wire_server.Sockets.Registry.{registered, register_conn_lem, unregister_conn_lem}
use wire_server.Sockets.Loop.{
  Phase, fresh, joining, serving, leaving, gone, Peer, System, set_peer, to_phase,
}
use wire_server.Sockets.Loop.Sets.{Keyed, Sets, register_conn_tables, unregister_conn_tables}

-- Between `Register` and the answer to `Unregister`.
abbrev pub is_in : Phase → Bool
is_in fresh = false
is_in joining = false
is_in serving = true
is_in leaving = true
is_in gone = false

-- The table names each connection under its own user only, and only one that has registered.
pub record Tabled (s : System) : Type 0 where
  pub keyed : Keyed s.hub.clients
  pub sets : Sets s.hub.clients
  pub owned :
      (u : String) (i : ℕ)
      → registered u i s.hub ≡ true
      → ((s.peers i).user ≡ u) × (is_in (s.peers i).phase ≡ true)

-- What holds of a peer after one of them is set.
pub peer_after {ℓ} :
    (P : Peer → Type ℓ) (i j : ℕ) (p : Peer) (ps : ℕ → Peer)
    → (i ≡ j → P p)
    → (nat_eq i j ≡ false → P (ps j))
    → P (set_peer i p ps j)
peer_after P i j p ps at_it elsewhere = elim (Bool-cases (nat_eq i j)) [
  | inl hit ↦ rw hit (at_it (ground arith))
  | inr other ↦ rw other (elsewhere other)
]

-- A peer that keeps what the table reads of it.
pub Tabled-peers :
    (s t : System)
    → t.hub ≡ s.hub
    → ((i : ℕ) → (t.peers i).user ≡ (s.peers i).user)
    → ((i : ℕ) → is_in (s.peers i).phase ≡ true → is_in (t.peers i).phase ≡ true)
    → Tabled s
    → Tabled t
Tabled-peers s t same users phases tabled = record {
  keyed = rw same tabled.keyed;
  sets = λ u. rw same (tabled.sets u);
  owned = λ u i h.
      let was = tabled.owned u i (ap (registered u i) (sym same) ∙ h) in
      (users i ∙ was.0, phases i was.1);
}

-- The user under which a connection stands after its own `register`.
user_registered :
    (s : System) (i j : ℕ) (u : String)
    → Tabled s
    → i ≡ j
    → ((((s.peers i).user == u) && nat_eq i j) || registered u j s.hub) ≡ true
    → (s.peers i).user ≡ u
user_registered s i j u t same h = elim (text_cases (s.peers i).user u) [
  | inl equal ↦ equal
  | inr (_, other) ↦ ap (λ k. (s.peers k).user) same ∙ (t.owned u j (rw other at h)).0
]

pub register_conn-Tabled :
    (s : System) (i : ℕ)
    → Tabled s
    → Tabled
        (record s { hub = register_conn (s.peers i).user i s.hub; peers = to_phase i serving s })
register_conn-Tabled s i t =
    let tables = register_conn_tables (s.peers i).user i s.hub t.keyed t.sets in
    record {
      keyed = tables.0;
      sets = tables.1;
      owned = λ u j h.
          let was = sym (register_conn_lem (s.peers i).user u i j s.hub) ∙ h in
          peer_after (λ p. (p.user ≡ u) × (is_in p.phase ≡ true)) i j _ s.peers
            (λ same. (user_registered s i j u t same was, refl))
            (λ other. t.owned u j (ground (arith, was)));
    }

-- After its own `unregister` a connection stands under no user.
still_registered :
    (s : System) (i j : ℕ) (u : String)
    → Tabled s
    → i ≡ j
    → (registered u j s.hub && not (((s.peers i).user == u) && nat_eq i j)) ≡ true
    → ⊥
still_registered s i j u t same h =
    let owner : (s.peers i).user ≡ u =
      ap (λ k. (s.peers k).user) same ∙ (t.owned u j (ground arith)).0 in
    absurd (ground (arith, (eq_iff (s.peers i).user u).1 owner))

pub unregister_conn-Tabled :
    (s : System) (i : ℕ)
    → Tabled s
    → Tabled
        (record s { hub = unregister_conn (s.peers i).user i s.hub; peers = to_phase i gone s })
unregister_conn-Tabled s i t =
    let tables = unregister_conn_tables (s.peers i).user i s.hub t.keyed t.sets in
    record {
      keyed = tables.0;
      sets = tables.1;
      owned = λ u j h.
          let was = sym (unregister_conn_lem (s.peers i).user u i j s.hub).0 ∙ h in
          peer_after (λ p. (p.user ≡ u) × (is_in p.phase ≡ true)) i j _ s.peers
            (λ same. absurd (still_registered s i j u t same was))
            (λ other. t.owned u j (ground (arith, was)));
    }
