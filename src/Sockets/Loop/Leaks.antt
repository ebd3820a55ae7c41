-- ===== src/Sockets/Loop/Leaks.antt =====
-- What is left when `Run` has returned.
use wire_server.Prelude.{
  ℕ, true, false, List, ◌≡◌, refl, sym, ◌∙◌, ap, ltb, length, inl, inr, Bool-cases,
}
use wire_server.Sockets.{has_conn}
use wire_server.Sockets.Loop.{
  Peer, set_peer, gone, System, push, close_all, Step, serves, registers, ends, unregisters,
  broadcasts, delivers, writes, sends, done, Steps, stay, go,
}
use wire_server.Sockets.Loop.Tabled.{peer_after}

-- The loop has returned, its table is the same, and no connection has come past `Unregister` that was
-- not past it before.
pub record Leaked (s t : System) : Type 0 where
  pub returned : t.running ≡ false
  pub hub_same : t.hub ≡ s.hub
  pub none_gone : (i : ℕ) → (t.peers i).phase ≡ gone → (s.peers i).phase ≡ gone

-- A change of one peer's phase or queue that does not bring it past its end.
peer-Leaked :
    (s t : System) (i : ℕ) (p : Peer)
    → (p.phase ≡ gone → (t.peers i).phase ≡ gone)
    → Leaked s t
    → Leaked s (record t { peers = set_peer i p t.peers })
peer-Leaked s t i p at_it l = record {
  returned = l.returned;
  hub_same = l.hub_same;
  none_gone = λ j h. l.none_gone j (
      peer_after (λ q. q.phase ≡ gone → (t.peers j).phase ≡ gone) i j p t.peers
        (λ same e. ap (λ k. (t.peers k).phase) (sym same) ∙ at_it e) (λ other e. e) h);
}

push-Leaked : (s t : System) (bytes : List ℕ) (i : ℕ) → Leaked s t → Leaked s (push bytes i t)
unfolding push
push-Leaked s t bytes i l = elim (Bool-cases (has_conn i t.hub.closed)) [
  | inl shut ↦
      rw shut (record { returned = l.returned; hub_same = l.hub_same; none_gone = l.none_gone })
  | inr fine ↦ elim (Bool-cases (ltb (length (t.peers i).queue) 64)) [
    | inl room ↦ rw (fine, room) (peer-Leaked s t i _ (λ e. e) l)
    | inr full ↦ rw (fine, full) l
  ]
]

Step-Leaked : (s t u : System) → Step t u → Leaked s t → Leaked s u
Step-Leaked s t _ (serves _ i there) l = peer-Leaked s t i _ (λ e. absurd (cc e)) l
Step-Leaked s t _ (registers _ i up there) l = absurd (cc (sym up ∙ l.returned))
Step-Leaked s t _ (ends _ i there) l = peer-Leaked s t i _ (λ e. absurd (cc e)) l
Step-Leaked s t _ (unregisters _ i up there) l = absurd (cc (sym up ∙ l.returned))
Step-Leaked s t _ (broadcasts _ o room) l = record {
  returned = l.returned;
  hub_same = l.hub_same;
  none_gone = l.none_gone;
}
Step-Leaked s t _ (delivers _ o rest up e) l = absurd (cc (sym up ∙ l.returned))
Step-Leaked s t _ (writes _ i bytes rest e) l = peer-Leaked s t i _ (λ h. h) l
Step-Leaked s t _ (sends _ i bytes) l = push-Leaked s t bytes i l
Step-Leaked s t _ (done _ up) l = absurd (cc (sym up ∙ l.returned))

Steps-Leaked : (s t u : System) → Steps t u → Leaked s t → Leaked s u
Steps-Leaked s t _ (stay _) l = l
Steps-Leaked s t u (go _ m _ step rest) l = Steps-Leaked s m u rest (Step-Leaked s t m step l)

-- Whenever the loop runs, the end of its context is a step after which, in whatever steps follow, no
-- connection comes past its `Unregister`, so none that was open closes its socket; the table stays as
-- it is, and no connection joins it.
pub done-Leaked :
    (s : System)
    → s.running ≡ true
    → (t : System) × Step s t × ((u : System) → Steps t u → Leaked t u)
done-Leaked s up =
    let t : System = record s { hub = close_all s.hub; running = false } in
    let start : Leaked t t = record { returned = refl; hub_same = refl; none_gone = λ i h. h } in
    (t, done s up, λ u steps. Steps-Leaked t t u steps start)
