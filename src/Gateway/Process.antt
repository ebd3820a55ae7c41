-- ===== src/Gateway/Process.antt =====
-- The end of `main` in services/api-gateway/cmd/main.go: what runs beside the hub's loop from the start
-- of the servers on, as steps.
use wire_server.Prelude.{
  ℕ, ◌<◌, ◌-◌, String, Bool, true, Option, List, ◌∷◌, ◌++◌, ◌≡◌, ◌≢◌, ◌⊎◌, refl, sym, ◌∙◌, inr,
}
use wire_server.Gateway.Hub.{Connection}
use wire_server.Gateway.Hub.Loop.{Loop, selecting, returned, Step, Steps, stay, go}
use wire_server.Gateway.Hub.Loop.Stuck.{silent_found-Stuck}

-- Where `main` is: at `<-signalCtx.Done()`, in `Shutdown` of the HTTP server, in `wg.Wait`, or returned.
pub data Stage : Type 0 where
  waiting : Stage
  stopping : Stage
  joining : Stage
  exited : Stage

-- `main` with the hub's loop; `cancelled` says that `ctx` is done, `closed` that the hub's epoll
-- descriptor is closed.
pub record Process : Type 0 where
  pub loop : Loop
  pub cancelled : Bool
  pub closed : Bool
  pub stage : Stage

-- `hub_runs` is a step of the loop but for its end, which `hub_ends` is: it sees that its context is done
-- or that its descriptor is closed.
pub data Turn (has_lookup : Bool) (encode : String → Option Bool → String)
    : Process → Process → Type 0 where
  hub_runs :
      (p : Process) (l : Loop)
      → Step has_lookup encode p.loop l
      → l.position ≢ returned
      → Turn has_lookup encode p (record p { loop = l })
  hub_ends :
      (p : Process)
      → p.loop.position ≡ selecting
      → (p.cancelled ≡ true) ⊎ (p.closed ≡ true)
      → Turn has_lookup encode p (record p { loop = record (p.loop) { position = returned } })
  listen_fails : (p : Process) → Turn has_lookup encode p (record p { cancelled = true })
  context_done :
      (p : Process)
      → p.stage ≡ waiting
      → p.cancelled ≡ true
      → Turn has_lookup encode p (record p { stage = stopping })
  signal :
      (p : Process) → p.stage ≡ waiting → Turn has_lookup encode p (record p { stage = stopping })
  shut_down :
      (p : Process)
      → p.stage ≡ stopping
      → Turn has_lookup encode p (record p { closed = true; stage = joining })
  exit :
      (p : Process)
      → p.stage ≡ joining
      → p.loop.position ≡ returned
      → Turn has_lookup encode p (record p { cancelled = true; stage = exited })

pub data Turns (has_lookup : Bool) (encode : String → Option Bool → String)
    : Process → Process → Type 0 where
  halt : (p : Process) → Turns has_lookup encode p p
  turn :
      (p q r : Process)
      → Turn has_lookup encode p q
      → Turns has_lookup encode q r
      → Turns has_lookup encode p r

module _ (has_lookup : Bool) (encode : String → Option Bool → String) where
  -- A loop from which no steps lead to its `select` or its end.
  abbrev Hangs : Loop → Type 0
  Hangs l =
      (n : Loop) → Steps has_lookup encode l n → (n.position ≢ selecting) × (n.position ≢ returned)

  Hangs-Step : (l m : Loop) → Step has_lookup encode l m → Hangs l → Hangs m
  Hangs-Step l m step hangs n steps = hangs n (go l m n step steps)

  -- While its loop hangs, `main` does not return.
  Turn-remains :
      (p q : Process)
      → Turn has_lookup encode p q
      → Hangs p.loop × (p.stage ≢ exited)
      → Hangs q.loop × (q.stage ≢ exited)
  Turn-remains p _ (hub_runs _ l step runs) (hangs, here) = (Hangs-Step p.loop l step hangs, here)
  Turn-remains p _ (hub_ends _ at_select why) (hangs, here) =
      absurd ((hangs p.loop (stay p.loop)).0 at_select)
  Turn-remains p _ (listen_fails _) both = both
  Turn-remains p _ (context_done _ at_wait done) (hangs, here) = (hangs, λ e. cc e)
  Turn-remains p _ (signal _ at_wait) (hangs, here) = (hangs, λ e. cc e)
  Turn-remains p _ (shut_down _ at_stop) (hangs, here) = (hangs, λ e. cc e)
  Turn-remains p _ (exit _ at_join over) (hangs, here) =
      absurd ((hangs p.loop (stay p.loop)).1 over)

  Turns-remain :
      (p q : Process)
      → Turns has_lookup encode p q
      → Hangs p.loop × (p.stage ≢ exited)
      → Hangs q.loop × (q.stage ≢ exited)
  Turns-remain p _ (halt _) both = both
  Turns-remain p q (turn _ r _ first rest) both =
      Turns-remain r q rest (Turn-remains p r first both)

  -- Whenever the gateway waits for a signal while its hub's loop is at its `select`, `main` can return
  -- after a signal, whatever connections there are.
  pub signal-exits :
      (p : Process)
      → p.stage ≡ waiting
      → p.loop.position ≡ selecting
      → (q r : Process) × Turn has_lookup encode p q
        × (q.stage ≡ stopping)
        × Turns has_lookup encode q r
        × (r.stage ≡ exited)
  signal-exits p at_wait at_select =
      let p1 : Process = record p { stage = stopping } in
      let p2 : Process = record p1 { closed = true; stage = joining } in
      let p3 : Process = record p2 { loop = record (p2.loop) { position = returned } } in
      let p4 : Process = record p3 { cancelled = true; stage = exited } in
      (
        p1,
        p4,
        signal p at_wait,
        refl,
        turn p1 p2 p4 (shut_down p1 refl) (
            turn p2 p3 p4 (hub_ends p2 at_select (inr refl))
              (turn p3 p4 p4 (exit p3 refl refl) (halt p4))),
        refl,
      )

  -- If a connection is silent for more than 40 seconds while the gateway waits for a signal and its
  -- hub's loop is at its `select`, a heartbeat can come after which `main` never returns, whatever
  -- signals, failures and steps of the hub follow.
  pub silent-hangs :
      (p : Process) (now : ℕ) (c : Connection) (before after : List Connection)
      → p.stage ≡ waiting
      → p.loop.position ≡ selecting
      → p.loop.hub.conns ≡ before ++ c ∷ after
      → 40000000000 < now - c.last_pong
      → (q : Process) × Turn has_lookup encode p q
        × ((r : Process) → Turns has_lookup encode q r → r.stage ≢ exited)
  silent-hangs p now c before after at_wait at_select member old =
      let (m, step, stuck) =
        silent_found-Stuck has_lookup encode p.loop now c before after at_select member old in
      let hangs : Hangs m = λ n steps. (
        (λ e. cc (sym e ∙ (stuck n steps).waiting)),
        (λ e. cc (sym e ∙ (stuck n steps).waiting)),
      ) in
      (
        record p { loop = m },
        hub_runs p m step (hangs m (stay m)).1,
        λ r turns. (Turns-remain _ r turns (hangs, λ e. cc (sym at_wait ∙ e))).1,
      )
