-- ===== src/Sockets/Loop/Moves.antt =====
-- What one step of the hub's loop or of a connection does to the tables and the channels.
use wire_server.Prelude.{
  ℕ, ◌≤◌, Bool, true, false, List, [], ◌∷◌, ◌++◌, ◌≡◌, ◌≢◌, refl, sym, ap, ◌∙◌, inl, inr, length,
  nat_eq, arith, Bool-cases, if◌then◌else◌,
}
use wire_server.Sockets.{has_conn, send_all, register_conn, unregister_conn, deliver_outbound}
use wire_server.Sockets.Registry.{registered, unregister_conn_lem}
use wire_server.Sockets.Loop.{
  Phase, joining, serving, leaving, gone, Outbound, System, to_phase, push, never, deliver,
  close_all,
}
use wire_server.Sockets.Loop.Sets.{
  Distinct, has_conn-append, Distinct-append, send_all-holds, deliver_outbound-holds,
  Distinct-send_all,
}
use wire_server.Sockets.Loop.Tabled.{is_in, Tabled, Tabled-peers, peer_after}
use wire_server.Sockets.Loop.Safe.{
  Safe, open_channel, Pushed, push-Pushed, push_each-Pushed, Pushed-Tabled, Pushed-Safe,
}

-- A step of a connection alone, to a phase that is not the end.
pub moved-Tabled :
    (s : System) (i : ℕ) (p : Phase)
    → (is_in (s.peers i).phase ≡ true → is_in p ≡ true)
    → Tabled s
    → Tabled (record s { peers = to_phase i p s })
moved-Tabled s i p keeps =
    Tabled-peers s _ refl
      (λ j.
        peer_after (λ q. q.user ≡ (s.peers j).user) i j _ s.peers
          (λ same. ap (λ k. (s.peers k).user) same) (λ other. refl))
      (λ j h.
        peer_after (λ q. is_in q.phase ≡ true) i j _ s.peers
          (λ same. keeps (ap (λ k. is_in (s.peers k).phase) same ∙ h)) (λ other. h))

pub moved-Safe :
    (s : System) (i : ℕ) (p : Phase)
    → (s.peers i).phase ≢ gone
    → Safe s
    → Safe (record s { peers = to_phase i p s })
moved-Safe s i p still safe = record {
  closed_once = safe.closed_once;
  closed_gone = λ up j h.
      peer_after (λ q. q.phase ≡ gone) i j _ s.peers
        (λ same. absurd (still (ap (λ k. (s.peers k).phase) same ∙ safe.closed_gone up j h)))
        (λ other. safe.closed_gone up j h);
  queues_fit = λ j.
      peer_after (λ q. length q.queue ≤ 64) i j _ s.peers (λ same. safe.queues_fit i)
        (λ other. safe.queues_fit j);
  broadcasts_fit = safe.broadcasts_fit;
}

-- While the loop runs, a connection that is not past its end has an open channel.
pub not_closed :
    (s : System) (i : ℕ)
    → s.running ≡ true
    → (s.peers i).phase ≢ gone
    → Safe s
    → has_conn i s.hub.closed ≡ false
not_closed s i up still safe = elim (Bool-cases (has_conn i s.hub.closed)) [
  | inl shut ↦ absurd (still (safe.closed_gone up i shut))
  | inr fine ↦ fine
]

Distinct-closed :
    (b : Bool) (i : ℕ) (closed : List ℕ)
    → has_conn i closed ≡ false
    → Distinct closed
    → Distinct (if b then closed ++ i ∷ [] else closed)
Distinct-closed true i closed new d =
    Distinct-append closed (i ∷ []) d (refl, tt)
      (λ j h. elim (Bool-cases (nat_eq i j)) [
        | inl same ↦
            let e : i ≡ j = ground arith in
            absurd (cc (sym new ∙ ap (λ k. has_conn k closed) e ∙ h))
        | inr other ↦ rw other refl
      ])
Distinct-closed false i closed new d = d

was_closed :
    (b : Bool) (i j : ℕ) (closed : List ℕ)
    → nat_eq i j ≡ false
    → has_conn j (if b then closed ++ i ∷ [] else closed) ≡ true
    → has_conn j closed ≡ true
was_closed true i j closed other h = ground (arith, has_conn-append j closed (i ∷ []))
was_closed false i j closed other h = h

pub unregistered-Safe :
    (s : System) (i : ℕ)
    → s.running ≡ true
    → (s.peers i).phase ≡ leaving
    → Safe s
    → Safe (record s { hub = unregister_conn (s.peers i).user i s.hub; peers = to_phase i gone s })
unregistered-Safe s i up there safe =
    let shut = (unregister_conn_lem (s.peers i).user (s.peers i).user i i s.hub).1 in
    let fine : has_conn i s.hub.closed ≡ false = not_closed s i up (λ e. cc (sym there ∙ e)) safe in
    record {
      closed_once =
          rw shut (Distinct-closed (registered (s.peers i).user i s.hub) i _ fine safe.closed_once);
      closed_gone = λ _ j h.
          peer_after (λ q. q.phase ≡ gone) i j _ s.peers (λ same. refl)
            (λ other. safe.closed_gone up j (
              was_closed (registered (s.peers i).user i s.hub) i j _ other
                (ap (has_conn j) (sym shut) ∙ h)));
      queues_fit = λ j.
          peer_after (λ q. length q.queue ≤ 64) i j _ s.peers (λ same. safe.queues_fit i)
            (λ other. safe.queues_fit j);
      broadcasts_fit = safe.broadcasts_fit;
    }

pub registered-Safe :
    (s : System) (i : ℕ)
    → (s.peers i).phase ≡ joining
    → Safe s
    → Safe (record s { hub = register_conn (s.peers i).user i s.hub; peers = to_phase i serving s })
unfolding register_conn
registered-Safe s i there safe =
    let moved = moved-Safe s i serving (λ e. cc (sym there ∙ e)) safe in
    record {
      closed_once = moved.closed_once;
      closed_gone = moved.closed_gone;
      queues_fit = moved.queues_fit;
      broadcasts_fit = moved.broadcasts_fit;
    }

pub deliver-Pushed :
    (o : Outbound) (s : System) → s.running ≡ true → Tabled s → Safe s → Pushed s (deliver o s)
unfolding deliver
deliver-Pushed o s up t safe =
    push_each-Pushed o.payload (deliver_outbound never o.targets s.hub.clients) s (λ j h.
      let (u, member) = deliver_outbound-holds j o.targets s.hub.clients t.keyed h in
      open_channel s u j t safe up member)

-- `Send`, also on a closed channel.
pub send_both :
    (bytes : List ℕ) (i : ℕ) (s : System)
    → Tabled s × Safe s
    → Tabled (push bytes i s) × Safe (push bytes i s)
unfolding push
send_both bytes i s (t, safe) = elim (Bool-cases (has_conn i s.hub.closed)) [
  | inl shut ↦ rw shut (
    record { keyed = t.keyed; sets = t.sets; owned = t.owned },
    record {
      closed_once = safe.closed_once;
      closed_gone = safe.closed_gone;
      queues_fit = safe.queues_fit;
      broadcasts_fit = safe.broadcasts_fit;
    },
  )
  | inr fine ↦ let p = push-Pushed bytes i s fine in (Pushed-Tabled s _ p t, Pushed-Safe s _ p safe)
]

pub done-Safe :
    (s : System)
    → s.running ≡ true
    → Tabled s
    → Safe s
    → Safe (record s { hub = close_all s.hub; running = false })
unfolding close_all
done-Safe s up t safe = record {
  closed_once =
      Distinct-append s.hub.closed (send_all never s.hub.clients) safe.closed_once
        (Distinct-send_all (λ i. (s.peers i).user) s.hub.clients t.keyed t.sets
          (λ u j h. (t.owned u j h).0))
        (λ j shut. elim (Bool-cases (has_conn j (send_all never s.hub.clients))) [
          | inl there ↦
              let (u, member) = send_all-holds j s.hub.clients t.keyed there in
              absurd (cc (sym shut ∙ open_channel s u j t safe up member))
          | inr apart ↦ apart
        ]);
  closed_gone = λ down. cc;
  queues_fit = safe.queues_fit;
  broadcasts_fit = safe.broadcasts_fit;
}
