-- ===== src/Tests/Sockets.antt =====
-- The hub of pkg/ws with its channels, and the older chat service.
use wire_server.Prelude.{ℕ, String, true, false, none, some, List, [], ◌∷◌, ◌≡◌, refl, arith}
use wire_server.Sockets.Loop.{
  System, new_system, Outbound, Step, Steps, stay, go, serves, registers, broadcasts, delivers,
}
use wire_server.Sockets.Loop.Safe.{Safe}
use wire_server.Sockets.Loop.Calm.{Calm, Steps-Safe}
use wire_server.Sockets.Loop.Leaks.{Leaked, done-Leaked}
use wire_server.Sockets.Frames.{Value, Structs, fields_of}
use wire_server.Chat.Backend.{Backend, Message, lookup_key}
use wire_server.Chat.Service.State.{Service}
use wire_server.Chat.Service.{SendRequest, send_message}
use wire_server.Chat.Service.Stored.{Letter, frame_for}
use wire_server.Chat.Service.Untold.{is_answer, Untold, send_message-Untold}

abbrev owner : ℕ → String
owner i = "ann"

abbrev hello : Outbound
hello = record { targets = "ann" ∷ []; payload = 1 ∷ [] }

-- A connection joins, and something is broadcast to its user.
joined : (s : System) × Steps (new_system owner) s
unfolding new_system
joined = (
  _,
  go (new_system owner) _ _ (serves _ 0 refl) (
      go _ _ _ (registers _ 0 refl refl) (
        go _ _ _ (broadcasts _ hello (omega arith))
          (go _ _ _ (delivers _ hello [] refl refl) (stay _)))),
)

Steps-Safe_example : Safe joined.0 × Calm joined.0
Steps-Safe_example = Steps-Safe owner joined.0 joined.1

new-running : (new_system owner).running ≡ true
unfolding new_system
new-running = refl

done-Leaked_example :
    (t : System) × Step (new_system owner) t × ((u : System) → Steps t u → Leaked t u)
done-Leaked_example = done-Leaked (new_system owner) new-running

abbrev Texts : Type 0
Texts = List (String × String)

abbrev Envelope : Type 0
Envelope = List (String × Value Texts (Unit {0}))

abbrev structs : Structs Texts (Unit {0}) Envelope Envelope
structs = record {
  normal = λ m. some m;
  new_envelope = λ fields. some fields;
  as_map = λ e. e;
  marshal = λ e. some e;
  unmarshal = λ bytes. some bytes;
  empty = [];
}

abbrev pack : Texts → Texts
pack m = m

abbrev digest : String → String
digest s = "0123456789abcdef0123456789abcdef"

abbrev note : Message
note = record {
  id = "m1";
  conversation_id = "c1";
  sender_phone = "ann";
  body = "hi";
  media_url = none;
  created_at = 1;
  recipient_phone = some "ben";
  group_id = none;
  body_encrypted = "hi";
  body_type = "text";
  server_ts = 1;
}

abbrev backend : Backend
backend = record {
  conversations = [];
  messages = [];
  statuses = [];
  replica_members = [];
  replica_messages = [];
  presence = [];
  published = [];
  offline = [];
  expiries = [];
  events = [];
  new_id = λ n. "m2";
  fails = λ n. false;
  calls = 0;
  now = 100;
}

abbrev service : Service Envelope
service = record {
  backend = backend;
  members = [];
  receipts = [];
  traced = true;
  stored = true;
  keys = λ k. none;
  inboxes = λ k. ([], none);
  broadcasts = [];
}

abbrev letters : List Letter
letters = (note, "t1") ∷ (record note { id = "m3" }, "t2") ∷ []

abbrev encoded : Letter → Envelope
encoded l = let f = frame_for structs pack lookup_key digest "ben" l in fields_of f (f.payload)

abbrev nobody : SendRequest
nobody = record {
  conversation_id = "c1";
  recipient_phones = [];
  sender_phone = "ann";
  body = "hi";
  media_url = none;
  trace_id = "t1";
}

send_message-Untold_example :
    (is_answer (send_message structs pack lookup_key digest nobody service).0 ≡ false
      → Untold service (send_message structs pack lookup_key digest nobody service).1)
    × (nobody.recipient_phones ≡ []
        → is_answer (send_message structs pack lookup_key digest nobody service).0 ≡ false)
send_message-Untold_example = send_message-Untold structs pack lookup_key digest nobody service
