-- ===== src/Sockets/Loop/Safe.antt =====
-- What the hub's loop and the pumps keep while data goes to the channels.
use wire_server.Prelude.{
  ℕ, ◌≤◌, String, true, false, List, [], ◌∷◌, ◌≡◌, refl, sym, ap, ◌∙◌, inl, inr, length,
  length-append, ltb, arith, Bool-cases,
}
use wire_server.Sockets.{SocketHub, has_conn}
use wire_server.Sockets.Registry.{registered}
use wire_server.Sockets.Loop.{gone, System, push, push_each}
use wire_server.Sockets.Loop.Sets.{Distinct}
use wire_server.Sockets.Loop.Tabled.{is_in, Tabled, Tabled-peers, peer_after}

-- No channel is closed twice, and while the loop runs only those are closed whose connections have
-- been unregistered. The buffers hold no more than their capacity.
pub record Safe (s : System) : Type 0 where
  pub closed_once : Distinct s.hub.closed
  pub closed_gone :
      s.running ≡ true → (i : ℕ) → has_conn i s.hub.closed ≡ true → (s.peers i).phase ≡ gone
  pub queues_fit : (i : ℕ) → length (s.peers i).queue ≤ 64
  pub broadcasts_fit : length s.broadcasts ≤ 256

-- A connection of the table has an open channel.
pub open_channel :
    (s : System) (u : String) (i : ℕ)
    → Tabled s
    → Safe s
    → s.running ≡ true
    → registered u i s.hub ≡ true
    → has_conn i s.hub.closed ≡ false
open_channel s u i t safe up member = elim (Bool-cases (has_conn i s.hub.closed)) [
  | inl shut ↦ absurd (cc (sym ((t.owned u i member).1) ∙ ap is_in (safe.closed_gone up i shut)))
  | inr fine ↦ fine
]

-- A send to connections with open channels changes their queues only.
pub record Pushed (s t : System) : Type 0 where
  pub hub_same : t.hub ≡ s.hub
  pub running_same : t.running ≡ s.running
  pub broadcasts_same : t.broadcasts ≡ s.broadcasts
  pub panicked_same : t.panicked ≡ s.panicked
  pub users_same : (i : ℕ) → (t.peers i).user ≡ (s.peers i).user
  pub phases_same : (i : ℕ) → (t.peers i).phase ≡ (s.peers i).phase
  pub fits : ((i : ℕ) → length (s.peers i).queue ≤ 64) → (i : ℕ) → length (t.peers i).queue ≤ 64

pub push-Pushed :
    (bytes : List ℕ) (i : ℕ) (s : System)
    → has_conn i s.hub.closed ≡ false
    → Pushed s (push bytes i s)
unfolding push
push-Pushed bytes i s fine = elim (Bool-cases (ltb (length (s.peers i).queue) 64)) [
  | inl room ↦
      rw (fine, room)
        (record {
          hub_same = refl;
          running_same = refl;
          broadcasts_same = refl;
          panicked_same = refl;
          users_same = λ j.
              peer_after (λ p. p.user ≡ (s.peers j).user) i j _ s.peers
                (λ same. ap (λ k. (s.peers k).user) same) (λ other. refl);
          phases_same = λ j.
              peer_after (λ p. p.phase ≡ (s.peers j).phase) i j _ s.peers
                (λ same. ap (λ k. (s.peers k).phase) same) (λ other. refl);
          fits = λ f j.
              peer_after (λ p. length p.queue ≤ 64) i j _ s.peers
                (λ same. ground (arith, length-append (s.peers i).queue (bytes ∷ [])))
                (λ other. f j);
        })
  | inr full ↦
      rw (fine, full)
        (record {
          hub_same = refl;
          running_same = refl;
          broadcasts_same = refl;
          panicked_same = refl;
          users_same = λ j. refl;
          phases_same = λ j. refl;
          fits = λ f. f;
        })
]

pub push_each-Pushed :
    (bytes : List ℕ) (is : List ℕ) (s : System)
    → ((j : ℕ) → has_conn j is ≡ true → has_conn j s.hub.closed ≡ false)
    → Pushed s (push_each bytes is s)
push_each-Pushed bytes [] s fine = record {
  hub_same = refl;
  running_same = refl;
  broadcasts_same = refl;
  panicked_same = refl;
  users_same = λ j. refl;
  phases_same = λ j. refl;
  fits = λ f. f;
}
push_each-Pushed bytes (i ∷ is) s fine =
    let first = push-Pushed bytes i s (fine i (ground arith)) in
    let rest = push_each-Pushed bytes is (push bytes i s) (λ j h.
      ap (λ (hub : SocketHub). has_conn j hub.closed) first.hub_same ∙ fine j (ground arith)) in
    record {
      hub_same = rest.hub_same ∙ first.hub_same;
      running_same = rest.running_same ∙ first.running_same;
      broadcasts_same = rest.broadcasts_same ∙ first.broadcasts_same;
      panicked_same = rest.panicked_same ∙ first.panicked_same;
      users_same = λ j. rest.users_same j ∙ first.users_same j;
      phases_same = λ j. rest.phases_same j ∙ first.phases_same j;
      fits = λ f. rest.fits (first.fits f);
    }

pub Pushed-Tabled : (s t : System) → Pushed s t → Tabled s → Tabled t
Pushed-Tabled s t p =
    Tabled-peers s t p.hub_same p.users_same (λ i h. ap is_in (p.phases_same i) ∙ h)

pub Pushed-Safe : (s t : System) → Pushed s t → Safe s → Safe t
Pushed-Safe s t p safe = record {
  closed_once = rw p.hub_same safe.closed_once;
  closed_gone = λ up i h.
      p.phases_same i
      ∙ safe.closed_gone (sym p.running_same ∙ up) i
          (ap (λ (hub : SocketHub). has_conn i hub.closed) (sym p.hub_same) ∙ h);
  queues_fit = p.fits safe.queues_fit;
  broadcasts_fit = rw p.broadcasts_same safe.broadcasts_fit;
}
