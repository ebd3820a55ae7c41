-- ===== src/Tests/Startup.antt =====
-- The start of the programs, and the end of the gateway.
use wire_server.Prelude.{String, Bool, true, false, Option, [], ◌∷◌, ◌≡◌, ◌≢◌, refl, arith}
use wire_server.Gateway.Hub.{Connection}
use wire_server.Gateway.Hub.Loop.{Loop, selecting}
use wire_server.Gateway.Process.{
  Process, waiting, stopping, exited, Turn, Turns, signal-exits, silent-hangs,
}
use wire_server.Startup.{Call, ping_redis, Machine}

-- Every key is set, and everything answers but Redis.
abbrev answers : Call → Bool
answers (ping_redis addrs) = false
answers c = true

abbrev machine : Machine
machine = record {
  get = λ key. "value";
  answers = answers;
  attempts = λ name addr n. true;
  key_pair = λ cert key. true;
  appended = λ ca. true;
  order = λ entries. entries;
}

abbrev ann : Connection
ann = record { fd = 4; phone = "ann"; last_pong = 10000000000 }

abbrev loop : Loop
loop = record {
  hub = record {
    conns = ann ∷ [];
    active_inc = 1;
    active_dec = 0;
    sends = [];
    closed = [];
    online = [];
    offline_events = [];
    fails = λ n. false;
    calls = 2;
  };
  limits = λ k. 0;
  position = selecting;
  registering = [];
  unregistering = [];
  broadcasts = [];
  groups = [];
  lookups = [];
}

abbrev gateway_process : Process
gateway_process = record { loop = loop; cancelled = false; closed = false; stage = waiting }

abbrev encode : String → Option Bool → String
encode phone answer = phone

signal-exits_example :
    (q r : Process) × Turn true encode gateway_process q
    × (q.stage ≡ stopping)
    × Turns true encode q r
    × (r.stage ≡ exited)
signal-exits_example = signal-exits true encode gateway_process refl refl

silent-hangs_example :
    (q : Process) × Turn true encode gateway_process q
    × ((r : Process) → Turns true encode q r → r.stage ≢ exited)
silent-hangs_example =
    silent-hangs true encode gateway_process 60000000000 ann [] [] refl refl refl (omega arith)
