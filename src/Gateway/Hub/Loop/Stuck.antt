-- ===== src/Gateway/Hub/Loop/Stuck.antt =====
-- A loop that calls `Unregister` itself.
use wire_server.Prelude.{
  ℕ, ◌<◌, ◌≤◌, ◌-◌, String, Bool, Option, List, ◌∷◌, ◌++◌, ◌≡◌, refl, sym, ◌∙◌, length, arith,
}
use wire_server.Gateway.Hub.{Connection}
use wire_server.Gateway.Hub.Loop.{
  Position, selecting, sending_unregister, Loop, Step, call_register, call_unregister,
  call_broadcast, call_group_broadcast, respond, take_register, take_unregister, take_broadcast,
  take_group, all_alive, silent_found, read, done, Steps, stay, go,
}

-- The loop waits in `Unregister`, the hub is the same but for the answers of lookups, and no call of
-- `Register` has returned.
pub record Stuck (c : Connection) (l l' : Loop) : Type 0 where
  pub waiting : l'.position ≡ sending_unregister c
  pub hub_same : record (l'.hub) { sends = l.hub.sends } ≡ l.hub
  pub none_registered : length l.registering ≤ length l'.registering

elsewhere : (c : Connection) (p : Position) → p ≡ selecting → p ≡ sending_unregister c → ⊥
elsewhere c p here there = cc (sym here ∙ there)

module _ (has_lookup : Bool) (encode : String → Option Bool → String) (c : Connection)
    (l : Loop) where
  Step-Stuck : (m n : Loop) → Step has_lookup encode m n → Stuck c l m → Stuck c l n
  Step-Stuck m _ (call_register _ d) s = record {
    waiting = s.waiting;
    hub_same = s.hub_same;
    none_registered = omega (arith, s.none_registered);
  }
  Step-Stuck m _ (call_unregister _ d) s = record {
    waiting = s.waiting;
    hub_same = s.hub_same;
    none_registered = s.none_registered;
  }
  Step-Stuck m _ (call_broadcast _ payload room) s = record {
    waiting = s.waiting;
    hub_same = s.hub_same;
    none_registered = s.none_registered;
  }
  Step-Stuck m _ (call_group_broadcast _ targets payload room) s = record {
    waiting = s.waiting;
    hub_same = s.hub_same;
    none_registered = s.none_registered;
  }
  Step-Stuck m _ (respond _ before after d phone found e) s = record {
    waiting = s.waiting;
    hub_same = s.hub_same;
    none_registered = s.none_registered;
  }
  Step-Stuck m _ (take_register _ before after d here e) s =
      absurd (elsewhere c m.position here s.waiting)
  Step-Stuck m _ (take_unregister _ before after d here e) s =
      absurd (elsewhere c m.position here s.waiting)
  Step-Stuck m _ (take_broadcast _ payload rest here e) s =
      absurd (elsewhere c m.position here s.waiting)
  Step-Stuck m _ (take_group _ targets payload rest here e) s =
      absurd (elsewhere c m.position here s.waiting)
  Step-Stuck m _ (all_alive _ now here e) s = absurd (elsewhere c m.position here s.waiting)
  Step-Stuck m _ (silent_found _ now d before after here e old) s =
      absurd (elsewhere c m.position here s.waiting)
  Step-Stuck m _ (read _ fd now lost frame here) s = absurd (elsewhere c m.position here s.waiting)
  Step-Stuck m _ (done _ here) s = absurd (elsewhere c m.position here s.waiting)

  Steps-Stuck : (m n : Loop) → Steps has_lookup encode m n → Stuck c l m → Stuck c l n
  Steps-Stuck m _ (stay _) s = s
  Steps-Stuck m n (go _ k _ step rest) s = Steps-Stuck k n rest (Step-Stuck m k step s)

-- A heartbeat that comes to a connection silent for more than 40 seconds is a step after which, in
-- whatever steps follow, the loop stays in its own call of `Unregister`: it never returns, the table,
-- the presence keys and the sockets stay as they are, and no `Register` ends.
pub silent_found-Stuck :
    (has_lookup : Bool) (encode : String → Option Bool → String) (l : Loop) (now : ℕ)
    (c : Connection) (before after : List Connection)
    → l.position ≡ selecting
    → l.hub.conns ≡ before ++ c ∷ after
    → 40000000000 < now - c.last_pong
    → (m : Loop) × Step has_lookup encode l m
      × ((n : Loop) → Steps has_lookup encode m n → Stuck c l n)
silent_found-Stuck has_lookup encode l now c before after here member old =
    let m : Loop = record l { position = sending_unregister c } in
    let start : Stuck c l m = record {
      waiting = refl;
      hub_same = refl;
      none_registered = omega arith;
    } in
    (
      m,
      silent_found l now c before after here member old,
      λ n steps. Steps-Stuck has_lookup encode c l m n steps start,
    )
