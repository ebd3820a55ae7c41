-- ===== src/Tests/Settings.antt =====
-- Settings, keys of uploads, frames and status events at concrete inputs.
use wire_server.Prelude.{
  String, false, ◌||◌, none, some, List, [], ◌∷◌, ◌++◌, ◌≡◌, refl, sym, map, ◌==◌, if◌then◌else◌,
}
use wire_server.Text.{trim_space}
use wire_server.Text.Words.{split_at}
use wire_server.Chat.Backend.{Backend, Message, find_message, status_event, sender_tick}
use wire_server.Chat.Delivery.{sender_channel}
use wire_server.Chat.Status.{MarkStatusRequest, mark_status, handle_status_event}
use wire_server.Chat.Status.Ticks.{handle_status_event-mark_status}
use wire_server.Config.Values.{AllRead, load_config-Reads}
use wire_server.Services.Media.{MediaLibrary, MediaService, escape_s3_key}
use wire_server.Services.Media.Keys.{escape_s3_key-parts}
use wire_server.Sockets.Frames.{
  Frame, Value, Structs, fields_of, marshal_frame, unmarshal_frame, unmarshal_frame-marshal_frame,
}

-- Only the Redis address is set.
abbrev environment : String → String
environment key = if key == "REDIS_CLUSTER_ADDRS" then "localhost:6379" else " "

load_config-Reads_example : AllRead environment
load_config-Reads_example = load_config-Reads environment

abbrev plain_library : MediaLibrary
plain_library = record {
  sha256 = λ s. [];
  hmac_sha256 = λ key s. [];
  bytes = λ s. [];
  encode_query = λ query. "";
  path_escape = λ s. s;
  path_join = λ parts. "";
  date_time = λ t. "";
  date = λ t. "";
}

abbrev media : MediaService
media = record { bucket = "b"; region = "r"; access_key_id = "k"; secret_key = "s" }

escape_s3_key-parts_example :
    map (λ s. s) (split_at 47 (escape_s3_key plain_library media "uploads/ann/m_1"))
    ≡ split_at 47 "uploads/ann/m_1"
escape_s3_key-parts_example =
    escape_s3_key-parts plain_library media (λ s. s) (λ p h. h) (λ p h. refl) "uploads/ann/m_1"

-- Envelopes and bytes are the map itself, and there is one payload.
abbrev Fields : Type 0
Fields = List (String × Value (Unit {0}) (Unit {0}))

abbrev structs : Structs (Unit {0}) (Unit {0}) Fields Fields
structs = record {
  normal = λ m. some m;
  new_envelope = λ fields. some fields;
  as_map = λ e. e;
  marshal = λ e. some e;
  unmarshal = λ bytes. some bytes;
  empty = tt;
}

abbrev ping : Frame (Unit {0})
ping = record { type = "ping"; trace_id = "t1"; user_id = "ann"; payload = tt }

some-injective {ℓ} : {A : Type ℓ} (a b : A) → some a ≡ some b → b ≡ a
some-injective a b h = cc h

ping-marshalled : marshal_frame structs ping ≡ some (fields_of ping tt)
unfolding marshal_frame
ping-marshalled = refl

unmarshal_frame-marshal_frame_example : unmarshal_frame structs (fields_of ping tt) ≡ some ping
unmarshal_frame-marshal_frame_example =
    unmarshal_frame-marshal_frame structs (λ e bytes h. sym h)
      (λ f m payload e n h. some-injective _ _ h) ping tt (fields_of ping tt) refl ping-marshalled

abbrev stored : Message
stored = record {
  id = "m1";
  conversation_id = "dm:a:b";
  sender_phone = "a";
  body = "hi";
  media_url = none;
  created_at = 1;
  recipient_phone = some "b";
  group_id = none;
  body_encrypted = "hi";
  body_type = "text";
  server_ts = 1;
}

abbrev backend : Backend
backend = record {
  conversations = [];
  messages = stored ∷ [];
  statuses = [];
  replica_members = [];
  replica_messages = [];
  presence = [];
  published = [];
  offline = [];
  expiries = [];
  events = [];
  new_id = λ n. "fresh";
  fails = λ n. false;
  calls = 0;
  now = 9;
}

abbrev mark : MarkStatusRequest
mark = record { message_id = " m1"; user_phone = "b"; status = "" }

mark-stored :
    (((trim_space mark.message_id == "") || (trim_space mark.user_phone == "")) ≡ false)
    × (find_message (trim_space mark.message_id) backend.messages ≡ some stored)
unfolding trim_space
mark-stored = (refl, refl)

handle_status_event-mark_status_example :
    (let b1 = (mark_status mark "read" "msg.read" backend).1 in
      let evt : MarkStatusRequest = record {
        message_id = trim_space " m1";
        user_phone = trim_space "b";
        status = "read";
      } in
      (b1.events ≡ [] ++ ("msg.read", status_event (trim_space " m1") (trim_space "b") "read") ∷ [])
      × ((handle_status_event "msg.read" (some evt) b1).published
          ≡ []
            ++ (
              sender_channel "a",
              sender_tick "msg.read" (trim_space " m1") (trim_space "b") "read" 9,
            )
              ∷ []))
handle_status_event-mark_status_example =
    handle_status_event-mark_status mark "read" "msg.read" backend stored (λ n. refl) mark-stored.0
      mark-stored.1
