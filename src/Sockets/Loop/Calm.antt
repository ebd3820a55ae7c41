-- ===== src/Sockets/Loop/Calm.antt =====
-- What the hub's loop and the pumps keep, whatever steps follow `NewHub`.
use wire_server.Prelude.{
  ℕ, ◌≤◌, String, true, List, [], ◌≢◌, ◌∷◌, ◌≡◌, refl, sym, ap, ◌∙◌, length, length-append, arith,
}
use wire_server.Sockets.Loop.{
  Outbound, push, deliver, gone, joining, leaving, System, new_system, close_all, Step, serves,
  registers, ends, unregisters, broadcasts, delivers, writes, sends, done, Steps, stay, go,
}
use wire_server.Sockets.Loop.Tabled.{
  is_in, Tabled, Tabled-peers, peer_after, register_conn-Tabled, unregister_conn-Tabled,
}
use wire_server.Sockets.Loop.Safe.{push-Pushed, Safe, Pushed-Tabled, Pushed-Safe}
use wire_server.Sockets.Loop.Moves.{
  moved-Tabled, moved-Safe, unregistered-Safe, registered-Safe, deliver-Pushed, not_closed,
  send_both, done-Safe,
}

-- Each step keeps both.
Step-both : (s t : System) → Step s t → Tabled s × Safe s → Tabled t × Safe t
unfolding close_all
Step-both s _ (serves _ i there) (t, safe) = (
  moved-Tabled s i joining (λ h. absurd (cc (sym h ∙ ap is_in there))) t,
  moved-Safe s i joining (λ e. cc (sym there ∙ e)) safe,
)
Step-both s _ (registers _ i up there) (t, safe) =
    (register_conn-Tabled s i t, registered-Safe s i there safe)
Step-both s _ (ends _ i there) (t, safe) =
    (moved-Tabled s i leaving (λ h. refl) t, moved-Safe s i leaving (λ e. cc (sym there ∙ e)) safe)
Step-both s _ (unregisters _ i up there) (t, safe) =
    (unregister_conn-Tabled s i t, unregistered-Safe s i up there safe)
Step-both s _ (broadcasts _ o room) (t, safe) = (
  record { keyed = t.keyed; sets = t.sets; owned = t.owned },
  record {
    closed_once = safe.closed_once;
    closed_gone = safe.closed_gone;
    queues_fit = safe.queues_fit;
    broadcasts_fit = omega (arith, room, length-append s.broadcasts (o ∷ []));
  },
)
Step-both s _ (delivers _ o rest up e) (t, safe) =
    let s' : System = record s { broadcasts = rest } in
    let t' : Tabled s' = record { keyed = t.keyed; sets = t.sets; owned = t.owned } in
    let safe' : Safe s' = record {
      closed_once = safe.closed_once;
      closed_gone = safe.closed_gone;
      queues_fit = safe.queues_fit;
      broadcasts_fit = omega (arith, safe.broadcasts_fit, ap length e);
    } in
    let p = deliver-Pushed o s' up t' safe' in (Pushed-Tabled s' _ p t', Pushed-Safe s' _ p safe')
Step-both s _ (writes _ i bytes rest e) (t, safe) = (
  Tabled-peers s _ refl
      (λ j.
        peer_after (λ q. q.user ≡ (s.peers j).user) i j _ s.peers
          (λ same. ap (λ k. (s.peers k).user) same) (λ other. refl))
      (λ j h.
        peer_after (λ q. is_in q.phase ≡ true) i j _ s.peers
          (λ same. ap (λ k. is_in (s.peers k).phase) same ∙ h) (λ other. h))
      t,
  record {
    closed_once = safe.closed_once;
    closed_gone = λ up j h.
        peer_after (λ q. q.phase ≡ gone) i j _ s.peers
          (λ same. ap (λ k. (s.peers k).phase) same ∙ safe.closed_gone up j h)
          (λ other. safe.closed_gone up j h);
    queues_fit = λ j.
        peer_after (λ q. length q.queue ≤ 64) i j _ s.peers
          (λ same. omega (arith, safe.queues_fit i, ap length e)) (λ other. safe.queues_fit j);
    broadcasts_fit = safe.broadcasts_fit;
  },
)
Step-both s _ (sends _ i bytes) both = send_both bytes i s both
Step-both s _ (done _ up) (t, safe) =
    (record { keyed = t.keyed; sets = t.sets; owned = t.owned }, done-Safe s up t safe)

Steps-both : (s t : System) → Steps s t → Tabled s × Safe s → Tabled t × Safe t
Steps-both s _ (stay _) both = both
Steps-both s t (go _ m _ step rest) both = Steps-both m t rest (Step-both s m step both)

-- While the loop runs, its own next delivery sends on no closed channel, and neither does a `Send` to a
-- connection that has not been unregistered.
pub record Calm (s : System) : Type 0 where
  pub deliver_calm :
      s.running ≡ true
      → (o : Outbound) (rest : List Outbound) → s.broadcasts ≡ o ∷ rest
      → (deliver o (record s { broadcasts = rest })).panicked ≡ s.panicked
  pub send_calm :
      s.running ≡ true
      → (bytes : List ℕ) (i : ℕ) → (s.peers i).phase ≢ gone
      → (push bytes i s).panicked ≡ s.panicked

both-Calm : (s : System) → Tabled s → Safe s → Calm s
both-Calm s t safe = record {
  deliver_calm = λ up o rest e.
      let s' : System = record s { broadcasts = rest } in
      let t' : Tabled s' = record { keyed = t.keyed; sets = t.sets; owned = t.owned } in
      let safe' : Safe s' = record {
        closed_once = safe.closed_once;
        closed_gone = safe.closed_gone;
        queues_fit = safe.queues_fit;
        broadcasts_fit = omega (arith, safe.broadcasts_fit, ap length e);
      } in
      (deliver-Pushed o s' up t' safe').panicked_same;
  send_calm =
      λ up bytes i still. (push-Pushed bytes i s (not_closed s i up still safe)).panicked_same;
}

-- Whatever steps the loop, the goroutines of the connections and callers of `Send` take after
-- `NewHub`, no channel is closed twice, and while the loop runs only channels of connections that
-- have been unregistered are closed: the loop's own deliveries then send on no closed channel, and
-- neither does a `Send` to a connection that has not been unregistered. No channel holds more than
-- its capacity.
pub Steps-Safe : (users : ℕ → String) (s : System) → Steps (new_system users) s → Safe s × Calm s
unfolding new_system
Steps-Safe users s steps =
    let (t, safe) = Steps-both (new_system users) s steps (
      record { keyed = tt; sets = λ u. tt; owned = λ u i h. absurd (cc h) },
      record {
        closed_once = tt;
        closed_gone = λ up i h. absurd (cc h);
        queues_fit = λ i. omega arith;
        broadcasts_fit = omega arith;
      },
    ) in
    (safe, both-Calm s t safe)
