-- ===== src/Sockets/Pumps.antt =====
-- The goroutines of a connection in pkg/ws/conn.go: `readPump`, `writePump`, `Send` and `cleanup`, with
-- the counters of pkg/ws/metrics.go. What comes in and what happens to a write are lists; `decode`
-- stands for `UnmarshalFrame`.
use wire_server.Prelude.{
  ℕ, zero, suc, ◌+◌, Bool, true, false, Option, none, some, List, [], ◌∷◌, ◌++◌, ◌≡◌, refl, length,
  ltb, arith, ap, if◌then◌else◌,
}

-- What `cleanup` sees and does: the flag, how often the hub was told, and how often the socket was
-- closed.
pub record Conn : Type 0 where
  pub closed : Bool
  pub unregistered : ℕ
  pub socket_closed : ℕ

abbrev pub new_conn : Conn
new_conn = record { closed = false; unregistered = 0; socket_closed = 0 }

-- `cleanup`: `CompareAndSwap` lets one caller through.
unfoldable pub cleanup : Conn → Conn
cleanup c = if c.closed then c else record {
  closed = true;
  unregistered = c.unregistered + 1;
  socket_closed = c.socket_closed + 1;
}

-- `n` calls of `cleanup`, from whichever goroutines.
unfoldable pub cleanups : ℕ → Conn → Conn
unfolding cleanup
cleanups zero c = c
cleanups (suc n) c = cleanups n (cleanup c)

-- What `ReadMessage` returns: bytes, or an error.
pub data Inbound : Type 0 where
  broken : Inbound
  received : List ℕ → Inbound

-- `totalErrors`, `totalMessages`, the frames that the handler got, and whether the pump has ended.
pub record Reading {ℓ} (F : Type ℓ) : Type ℓ where
  pub errors : ℕ
  pub messages : ℕ
  pub handled : List F
  pub ended : Bool

module _ {ℓ} {F : Type ℓ} (decode : List ℕ → Option F) where
  abbrev counted : Option F → Reading F → Reading F
  counted none r = record r { errors = r.errors + 1 }
  counted (some f) r = record r { messages = r.messages + 1; handled = f ∷ r.handled }

  -- The loop of `readPump`, over what comes in; a handler's error is not looked at.
  unfoldable pub read_pump : List Inbound → Reading F
  read_pump [] = record { errors = 0; messages = 0; handled = []; ended = false }
  read_pump (broken ∷ rest) = record { errors = 0; messages = 0; handled = []; ended = true }
  read_pump (received bytes ∷ rest) = counted (decode bytes) (read_pump rest)

  -- The bytes that come in before the first error.
  abbrev pub before_broken : List Inbound → List (List ℕ)
  before_broken [] = []
  before_broken (broken ∷ rest) = []
  before_broken (received bytes ∷ rest) = bytes ∷ before_broken rest

  abbrev add_decoded : Option F → List F → List F
  add_decoded none fs = fs
  add_decoded (some f) fs = f ∷ fs

  abbrev pub decode_each : List (List ℕ) → List F
  decode_each [] = []
  decode_each (b ∷ bs) = add_decoded (decode b) (decode_each bs)

  -- The handler got the frames, and every message is counted once.
  pub record Complete (inputs : List (List ℕ)) (r : Reading F) : Type ℓ where
    pub handled_same : r.handled ≡ decode_each inputs
    pub messages_same : r.messages ≡ length (decode_each inputs)
    pub all_counted : r.errors + r.messages ≡ length inputs

  Complete-cons :
      (bytes : List ℕ) (inputs : List (List ℕ)) (o : Option F) (r : Reading F)
      → decode bytes ≡ o
      → Complete inputs r
      → Complete (bytes ∷ inputs) (counted o r)
  Complete-cons bytes inputs none r e c = record {
    handled_same = rw e c.handled_same;
    messages_same = rw e c.messages_same;
    all_counted = omega (arith, c.all_counted);
  }
  Complete-cons bytes inputs (some f) r e c = record {
    handled_same = rw e (ap (◌∷◌ f) c.handled_same);
    messages_same = rw e (omega (arith, c.messages_same));
    all_counted = omega (arith, c.all_counted);
  }

  -- Before the socket fails, `readPump` hands every frame that decodes to the handler, in order, and
  -- counts each message once, as a message if it decodes and as an error if not.
  pub read_pump-Complete :
      (inputs : List Inbound) → Complete (before_broken inputs) (read_pump inputs)
  unfolding read_pump
  read_pump-Complete [] = record { handled_same = refl; messages_same = refl; all_counted = refl }
  read_pump-Complete (broken ∷ rest) = record {
    handled_same = refl;
    messages_same = refl;
    all_counted = refl;
  }
  read_pump-Complete (received bytes ∷ rest) =
      Complete-cons bytes (before_broken rest) (decode bytes) (read_pump rest) refl
        (read_pump-Complete rest)

-- `Send`: whether there was room, and the channel, which holds 64; `none` is a frame that does not
-- encode.
unfoldable pub send : Option (List ℕ) → List (List ℕ) → Bool × List (List ℕ)
send none queue = (false, queue)
send (some bytes) queue =
    if ltb (length queue) 64 then (true, queue ++ bytes ∷ []) else (false, queue)

-- What wakes `writePump` up, with whether the write succeeds.
pub data Wake : Type 0 where
  cancelled : Wake
  queued : List ℕ → (written : Bool) → Wake
  queue_closed : Wake
  tick : (written : Bool) → Wake

pub data Written : Type 0 where
  binary : List ℕ → Written
  ping : Written
  close : Written

-- The frames that `writePump` writes, the failed one left out, and whether it has ended.
unfoldable pub write_pump : List Wake → List Written × Bool
write_pump [] = ([], false)
write_pump (cancelled ∷ rest) = ([], true)
write_pump (queue_closed ∷ rest) = (close ∷ [], true)
write_pump (queued bytes written ∷ rest) =
    let (out, ended) = write_pump rest in
    if written then (binary bytes ∷ out, ended) else ([], true)
write_pump (tick written ∷ rest) =
    let (out, ended) = write_pump rest in if written then (ping ∷ out, ended) else ([], true)

cleanups-closed :
    (n u k : ℕ)
    → cleanups n (record { closed = true; unregistered = u; socket_closed = k })
      ≡ record { closed = true; unregistered = u; socket_closed = k }
unfolding cleanups cleanup
cleanups-closed zero u k = refl
cleanups-closed (suc n) u k = cleanups-closed n u k

-- However often the goroutines of a connection call `cleanup`, once at least, the hub is told once and
-- the socket is closed once.
pub cleanups_lem :
    (n : ℕ)
    → cleanups (suc n) new_conn ≡ record { closed = true; unregistered = 1; socket_closed = 1 }
unfolding cleanups cleanup
cleanups_lem n = cleanups-closed n 1 1
