-- ===== src/Tests/Loops.antt =====
-- Loops and channels: the hub, the event bus, the push queue.
use wire_server.Prelude.{
  ◌+◌, count, String, Bool, true, false, Option, none, some, List, [], ◌∷◌, ◌≡◌, refl, arith, map,
  nat_eq,
}
use wire_server.Gateway.Hub.{Connection, Hub}
use wire_server.Gateway.Hub.Loop.{Loop, selecting, Step, Steps}
use wire_server.Gateway.Hub.Loop.Stuck.{Stuck, silent_found-Stuck}
use wire_server.Services.EventBus.{Entry, Turn, entries, read_failed, consume, new_kafka_event_bus}
use wire_server.Services.EventBus.Loops.{
  handled, acked, payloads, entries_read, given_out, lost, consume_lem, new_kafka_event_bus-delays,
}
use wire_server.Services.Notifications.Queue.{
  Message, Pool, waiting, sending, new_pool, enqueue, Run, enqueues, takes, Accounted,
  Run-Accounted,
}

abbrev ann : Connection
ann = record { fd = 4; phone = "ann"; last_pong = 10000000000 }

abbrev hub : Hub
hub = record {
  conns = ann ∷ [];
  active_inc = 1;
  active_dec = 0;
  sends = [];
  closed = [];
  online = [];
  offline_events = [];
  fails = λ n. false;
  calls = 2;
}

abbrev loop : Loop
loop = record {
  hub = hub;
  limits = λ k. 0;
  position = selecting;
  registering = [];
  unregistering = [];
  broadcasts = [];
  groups = [];
  lookups = [];
}

abbrev encode : String → Option Bool → String
encode phone answer = phone

silent_found-Stuck_example :
    (m : Loop) × Step true encode loop m × ((n : Loop) → Steps true encode m n → Stuck ann loop n)
silent_found-Stuck_example =
    silent_found-Stuck true encode loop 60000000000 ann [] [] refl refl (omega arith)

abbrev ben : Connection
ben = record { fd = 4; phone = "ben"; last_pong = 10000000000 }

abbrev turns : List Turn
turns =
    record {
      done = false;
      reply =
          entries
            (record { id = "1"; payload = some "a" } ∷ record { id = "2"; payload = none } ∷ []);
    }
    ∷ record { done = false; reply = read_failed (record { id = "0"; payload = some "z" } ∷ []) }
    ∷ record { done = false; reply = entries (record { id = "3"; payload = some "b" } ∷ []) }
    ∷ record { done = true; reply = entries (record { id = "4"; payload = some "c" } ∷ []) }
    ∷ []

consume_example :
    (handled (consume turns).0 ≡ payloads (entries_read turns))
    × (acked (consume turns).0 ≡ map (λ e. e.id) (entries_read turns))
    × ((f : Entry → Bool)
        → count f (given_out turns) ≡ count f (entries_read turns) + count f (lost turns))
consume_example = consume_lem turns

new_kafka_event_bus_example : new_kafka_event_bus false (λ n. nat_eq n 2) 9 ≡ some (1 ∷ 2 ∷ 4 ∷ [])
new_kafka_event_bus_example =
    new_kafka_event_bus-delays (λ n. nat_eq n 2) 2 9 (omega arith) refl (λ i lt. ground (arith, lt))

abbrev push : Message
push = record { token = "t"; title = "hi"; body = "there"; fields = [] }

abbrev queued : Pool
queued = (enqueue push (new_pool 2)).1

abbrev taken : Pool
taken = record queued { jobs = []; workers = sending push ∷ waiting ∷ [] }

to_taken : Run (new_pool 2) taken
unfolding new_pool enqueue
to_taken =
    Run.go (new_pool 2) queued taken (enqueues (new_pool 2) push) (
      Run.go queued taken taken (takes queued push [] [] (waiting ∷ []) refl refl) (Run.stay taken))

Run-Accounted_example : Accounted taken
Run-Accounted_example = Run-Accounted 2 taken to_taken
