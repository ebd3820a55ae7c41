-- ===== src/Chat/Status.antt =====
-- `MarkDelivered`, `MarkRead` and `handleStatusEvent` of services/chat-service/cmd/server.go.
pub mod Marks
pub mod Ticks
use wire_server.Prelude.{
  ℕ, String, Bool, true, false, ◌||◌, Option, none, some, ◌==◌, if◌then◌else◌,
}
use wire_server.Text.{trim_space}
use wire_server.Chat.Backend.{
  Backend, Message, Payload, status_event, sender_tick, upsert_message_status, publish_event,
  get_message_by_id, redis_publish,
}
use wire_server.Chat.Delivery.{sender_channel}
use wire_server.Chat.Send.{Code, invalid_argument, internal, Result, failed, ok}

pub record MarkStatusRequest : Type 0 where
  pub message_id : String
  pub user_phone : String
  pub status : String

-- Whether the publication succeeds does not show in the answer, which says `Success: true`.
unfoldable pub mark_stored : String → Payload → Bool × Backend → Result Bool × Backend
mark_stored stream evt (false, b) = (failed internal, b)
mark_stored stream evt (true, b) = let (_, b') = publish_event stream evt b in (ok true, b')

unfoldable pub mark_status : MarkStatusRequest → String → String → Backend → Result Bool × Backend
unfolding mark_stored
mark_status req status_value stream b =
    let msg_id = trim_space req.message_id in
    let user_phone = trim_space req.user_phone in
    if (msg_id == "") || (user_phone == "")
    then (failed invalid_argument, b)
    else mark_stored stream (status_event msg_id user_phone status_value)
        (upsert_message_status msg_id user_phone status_value b)

unfoldable pub mark_delivered : MarkStatusRequest → Backend → Result Bool × Backend
mark_delivered req b = mark_status req "delivered" "msg.delivered" b

unfoldable pub mark_read : MarkStatusRequest → Backend → Result Bool × Backend
mark_read req b = mark_status req "read" "msg.read" b

unfoldable pub tick_sender : String → MarkStatusRequest → Option Message × Backend → Backend
tick_sender stream evt (none, b) = b
tick_sender stream evt (some msg, b) =
    let (_, b') =
      redis_publish (sender_channel msg.sender_phone)
        (sender_tick stream evt.message_id evt.user_phone evt.status b.now) b in
    b'

-- A payload that does not decode is dropped.
unfoldable pub handle_status_event : String → Option MarkStatusRequest → Backend → Backend
handle_status_event stream none b = b
handle_status_event stream (some evt) b =
    tick_sender stream evt (get_message_by_id evt.message_id b)
