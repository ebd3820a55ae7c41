-- ===== src/Chat/Send.antt =====
-- `SendMessage` of services/chat-service/cmd/server.go. `validate` stands for the validator library
-- and `order` for the order in which the workers of `groupFanout` come to the recipients.
pub mod Failures
pub mod Senders
use wire_server.Prelude.{
  ℕ, String, Bool, true, false, not, Option, none, some, List, [], ◌∷◌, ◌==◌, if◌then◌else◌,
}
use wire_server.Text.{trim_space}
use wire_server.Chat.Backend.{
  Backend, Message, WireMessage, sent, InsertMessageParams, ensure_conversation, insert_message,
  upsert_message_status, publish_event, get_group_members,
}
use wire_server.Chat.Recipients.{dedupe_recipients, build_conversation_id}
use wire_server.Chat.Delivery.{deliver_all}

pub data Code : Type 0 where
  invalid_argument : Code
  internal : Code

-- A gRPC answer.
pub data Result {ℓ} (A : Type ℓ) : Type ℓ where
  failed : Code → Result A
  ok : A → Result A

pub record SendMessageInput : Type 0 where
  pub sender_phone : String
  pub recipient_phones : List String
  pub group_id : String
  pub body : String

pub record SendMessageResponse : Type 0 where
  pub message_id : String
  pub server_ts : ℕ

abbrev pub trimmed : SendMessageInput → SendMessageInput
trimmed req = record req {
  sender_phone = trim_space req.sender_phone;
  group_id = trim_space req.group_id;
}

abbrev deduped : String → Option (List String) → Option (List String)
deduped sender none = none
deduped sender (some members) = some (dedupe_recipients members sender)

-- Who gets the message: those named, or the group's members as the replica has them.
unfoldable pub resolve_recipients : SendMessageInput → Backend → Option (List String) × Backend
resolve_recipients input b =
    if input.group_id == ""
    then (some (dedupe_recipients input.recipient_phones input.sender_phone), b)
    else (let (members, b') = get_group_members input.group_id b in
        (deduped input.sender_phone members, b'))

-- The row to insert: a group's message names the group, a direct one its first recipient.
unfoldable pub message_params : SendMessageInput → String → String → InsertMessageParams
message_params input conversation_id first =
    let grouped = not (input.group_id == "") in
    record {
      sender_phone = input.sender_phone;
      recipient_phone = if grouped then none else some first;
      group_id = if grouped then some input.group_id else none;
      body_encrypted = input.body;
      body_type = "text";
      body = input.body;
      conversation_id = conversation_id;
    }

unfoldable pub event_message : Message → List String → WireMessage
event_message msg recipients = record {
  message_id = msg.id;
  sender_phone = msg.sender_phone;
  recipient_phones = recipients;
  body = msg.body_encrypted;
  status = "sent";
  created_at = msg.server_ts;
}

module _ (validate : SendMessageInput → Bool) (order : List String → List String) where
  -- From the stored row on: no failure shows in the answer.
  unfoldable pub announce :
      SendMessageInput
      → List String
      → Option Message
      → Backend
      → Result SendMessageResponse × Backend
  unfolding event_message
  announce input recipients none b = (failed internal, b)
  announce input recipients (some msg) b =
      let event_msg = event_message msg recipients in
      let (_, b1) = upsert_message_status msg.id input.sender_phone "sent" b in
      let (_, b2) = publish_event "msg.sent" (sent event_msg) b1 in
      let targets = if input.group_id == "" then recipients else order recipients in
      (
        ok (record { message_id = msg.id; server_ts = msg.server_ts }),
        deliver_all targets event_msg b2,
      )

  unfoldable pub store :
      SendMessageInput → String → List String → Backend → Result SendMessageResponse × Backend
  unfolding message_params
  store input first rest b =
      let recipients = first ∷ rest in
      let conversation_id = build_conversation_id input.sender_phone recipients input.group_id in
      let kind = if input.group_id == "" then "direct" else "group" in
      let (ensured, b1) = ensure_conversation conversation_id kind b in
      if ensured
      then (let (row, b2) = insert_message (message_params input conversation_id first) b1 in
          announce input recipients row b2)
      else (failed internal, b1)

  unfoldable pub send_to :
      SendMessageInput → Option (List String) → Backend → Result SendMessageResponse × Backend
  unfolding store
  send_to input none b = (failed internal, b)
  send_to input (some []) b = (failed invalid_argument, b)
  send_to input (some (r ∷ rs)) b = store input r rs b

  unfoldable pub send_message : SendMessageInput → Backend → Result SendMessageResponse × Backend
  send_message req b =
      if validate (trimmed req)
      then (let (recipients, b1) = resolve_recipients (trimmed req) b in
          send_to (trimmed req) recipients b1)
      else (failed invalid_argument, b)
