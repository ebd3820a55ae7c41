-- ===== src/Chat/Delivery.antt =====
-- `deliverToRecipient`, `isOnline` and `senderChannel` of services/chat-service/cmd/server.go.
pub mod Everyone
use wire_server.Prelude.{
  ℕ, ◌+◌, String, Bool, true, false, ◌&&◌, Option, none, some, List, [], ◌∷◌, code, leb, nat_eq,
  if◌then◌else◌,
}
use wire_server.Text.{◌<>◌, equal_fold}
use wire_server.Chat.Backend.{
  Backend, WireMessage, Payload, direct, redis_get, redis_publish, upsert_message_status,
  push_offline,
}

unfoldable pub sender_channel : String → String
sender_channel user_phone = "pod:user:" <> user_phone

unfoldable pub presence_key : String → String
presence_key user_phone = "presence:user:" <> user_phone

abbrev pub says_online : Option String → Bool
says_online none = false
says_online (some v) = equal_fold v "online"

unfoldable pub is_online : String → Backend → Bool × Backend
is_online user_phone b = let (v, b') = redis_get (presence_key user_phone) b in (says_online v, b')

-- The publication's own failure is only logged, and the status is stored all the same.
unfoldable pub deliver_online : String → WireMessage → Backend → Backend
deliver_online user_phone event_msg b =
    let (_, b1) = redis_publish (sender_channel user_phone) (direct user_phone event_msg) b in
    let (_, b2) = upsert_message_status event_msg.message_id user_phone "delivered" b1 in b2

unfoldable pub deliver_offline : String → WireMessage → Backend → Backend
deliver_offline user_phone event_msg b =
    let (_, b1) = push_offline ("offline:" <> user_phone) (direct user_phone event_msg) b in b1

unfoldable pub deliver_to_recipient : String → WireMessage → Backend → Backend
deliver_to_recipient user_phone event_msg b =
    let (online, b1) = is_online user_phone b in
    if online
    then deliver_online user_phone event_msg b1
    else deliver_offline user_phone event_msg b1

-- One recipient after the other.
unfoldable pub deliver_all : List String → WireMessage → Backend → Backend
deliver_all [] event_msg b = b
deliver_all (r ∷ rs) event_msg b = deliver_all rs event_msg (deliver_to_recipient r event_msg b)
