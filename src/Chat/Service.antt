-- ===== src/Chat/Service.antt =====
-- internal/chat/service.go, the older chat service. No program uses it, and it does not compile against
-- the packages it names: it reads `UpsertReceipt` as if it gave an error only, and calls the field
-- `UserID` of a frame `UserPhone`. Here it calls them as they are and means the same.
-- `lib` stands for structpb and proto, `pack` for a map of texts as a payload, `text_at` for the text
-- under a key of a payload, and `digest` for the hexadecimal SHA-256 of a text.
pub mod State
pub mod Inbox
pub mod Stored
pub mod Drained
pub mod Untold
use wire_server.Prelude.{
  ℕ, zero, suc, ◌+◌, ◌*◌, Char, String, Bool, true, false, not, Option, none, some, List, [], ◌∷◌,
  ◌++◌, ◌==◌, ltb, if◌then◌else◌,
}
use wire_server.Text.{◌<>◌, decimal}
use wire_server.Storage.Conversations.{
  ConversationMember, MessageReceipt, add_conversation_member, list_conversation_members,
  upsert_receipt,
}
use wire_server.Services.Presence.{Keys, tracker_is_online}
use wire_server.Sockets.Loop.{Outbound}
use wire_server.Sockets.Frames.{Frame, Structs, marshal_frame, unmarshal_frame}
use wire_server.Chat.Backend.{
  Backend, tick, Message, WireMessage, sent, status_event, InsertMessageParams, ensure_conversation,
  insert_message, publish_event,
}
use wire_server.Chat.Recipients.{sorted_pair}
use wire_server.Chat.Service.State.{
  Service, on_backend, quietly, inbox_key, add_member, add_members, receive, broadcast, lpush,
  expire, Popped, lost, empty, got, pop_inbox, check_online,
}

pub record SendRequest : Type 0 where
  pub conversation_id : String
  pub recipient_phones : List String
  pub sender_phone : String
  pub body : String
  pub media_url : Option String
  pub trace_id : String

pub record ReadRequest : Type 0 where
  pub message_id : String
  pub user_phone : String
  pub trace_id : String

-- What `SendMessage` comes to.
pub data Sending : Type 0 where
  panicked : Sending
  failed : Sending
  answered : Message → Sending

abbrev clip : ℕ → String → String
clip zero s = ""
clip (suc n) String.[] = ""
clip (suc n) (String.◌∷◌ c s) = String.◌∷◌ c (clip n s)

-- `directConversationID`
unfoldable pub direct_conversation_id : (digest : String → String) → String → String → String
unfolding sorted_pair
direct_conversation_id digest a b =
    let (x, y) = sorted_pair a b in "dm_" <> clip 24 (digest (x <> (":" <> y)))

abbrev pub sole : List String → Option String
sole [] = none
sole (r ∷ []) = some r
sole (r ∷ q ∷ rs) = none

abbrev sent_to : (digest : String → String) → String → ℕ → Option String → String
sent_to digest sender now none = "group_" <> decimal now
sent_to digest sender now (some r) = direct_conversation_id digest sender r

unfoldable pub conversation_of : (digest : String → String) → SendRequest → ℕ → String
unfolding direct_conversation_id decimal
conversation_of digest req now =
    if req.conversation_id == ""
    then sent_to digest req.sender_phone now (sole req.recipient_phones)
    else req.conversation_id

abbrev pub kind_of : Option String → String
kind_of none = "group"
kind_of (some r) = "direct"

unfoldable pub params_of : SendRequest → String → InsertMessageParams
params_of req id = record {
  sender_phone = req.sender_phone;
  recipient_phone = sole req.recipient_phones;
  group_id = none;
  body_encrypted = req.body;
  body_type = "text";
  body = req.body;
  conversation_id = id;
}

abbrev pub others_than : String → List ConversationMember → List String
others_than sender [] = []
others_than sender (m ∷ ms) =
    if m.user_phone == sender then others_than sender ms else m.user_phone ∷ others_than sender ms

-- Those named; the members of the conversation where nobody is.
unfoldable pub targets_of :
    {B : Type 0} → SendRequest → String → Service B → List String × Service B
unfolding list_conversation_members
targets_of req id s = elim (req.recipient_phones) [
  | [] ↦
      let t = record s { backend = tick s.backend } in
      if s.backend.fails s.backend.calls
      then ([], t)
      else (others_than req.sender_phone (list_conversation_members id s.members), t)
  | r ∷ rs ↦ (r ∷ rs, s)
]

unfoldable pub chat_event : SendRequest → Message → List String → WireMessage
chat_event req msg targets = record {
  message_id = msg.id;
  sender_phone = req.sender_phone;
  recipient_phones = targets;
  body = msg.body;
  status = "sent";
  created_at = 0;
}

-- `MarkRead`, which answers no error.
unfoldable pub mark_read : {B : Type 0} → ReadRequest → Service B → Service B
mark_read req s =
    let s1 = receive req.message_id req.user_phone "read" s in
    let event = status_event req.message_id req.user_phone "read" in
    (on_backend (publish_event "events.chat" event) s1).1

module _ {M O E B : Type 0} (lib : Structs M O E B) (pack : List (String × String) → M)
    (text_at : String → M → Option String) (digest : String → String) where
  unfoldable pub delivered_frame : String → Message → String → Frame M
  delivered_frame target msg trace_id = record {
    type = "message.delivered";
    trace_id = trace_id;
    user_id = target;
    payload = pack (
        ("message_id", msg.id)
        ∷ ("conversation_id", msg.conversation_id)
        ∷ ("sender_phone", msg.sender_phone)
        ∷ ("body", msg.body)
        ∷ []);
  }

  unfoldable pub sent_frame : SendRequest → Message → Frame M
  sent_frame req msg = record {
    type = "message.sent";
    trace_id = req.trace_id;
    user_id = req.sender_phone;
    payload = pack (
        ("message_id", msg.id)
        ∷ ("conversation_id", msg.conversation_id)
        ∷ ("status", "sent")
        ∷ ("body", msg.body)
        ∷ []);
  }

  unfoldable pub deliver_frame : Bool → String → Message → Option B → Service B → Service B
  unfolding inbox_key
  deliver_frame online target msg none s = s
  deliver_frame online target msg (some bytes) s =
      if online
      then receive msg.id target "delivered" (broadcast target bytes s)
      else if s.stored
      then expire (inbox_key target) (lpush (inbox_key target) bytes s)
      else s

  unfoldable pub deliver : String → Message → String → Service B → Service B
  deliver target msg trace_id s =
      let (online, s1) = check_online target s in
      deliver_frame online target msg (marshal_frame lib (delivered_frame target msg trace_id)) s1

  abbrev pub deliver_each : List String → Message → String → Service B → Service B
  deliver_each [] msg trace_id s = s
  deliver_each (t ∷ ts) msg trace_id s = deliver_each ts msg trace_id (deliver t msg trace_id s)

  unfoldable pub publish_to : List String → SendRequest → Message → Service B → Service B
  publish_to [] req msg s = s
  publish_to (t ∷ ts) req msg s =
      deliver_each (t ∷ ts) msg req.trace_id
        (on_backend (publish_event "events.chat" (sent (chat_event req msg (t ∷ ts)))) s).1

  unfoldable pub acknowledge :
      SendRequest → String → Message → Option B → Service B → Sending × Service B
  acknowledge req id msg none s = (failed, s)
  acknowledge req id msg (some bytes) s =
      let (targets, s1) = targets_of req id (broadcast req.sender_phone bytes s) in
      (answered msg, publish_to targets req msg s1)

  unfoldable pub inserted : SendRequest → String → Option Message → Service B → Sending × Service B
  inserted req id none s = (failed, s)
  inserted req id (some msg) s =
      let s1 = add_member id req.sender_phone (add_members id req.recipient_phones s) in
      acknowledge req id msg (marshal_frame lib (sent_frame req msg))
        (receive msg.id req.sender_phone "sent" s1)

  -- `req.RecipientPhones[0]` is read before the message is inserted.
  unfoldable pub insert : SendRequest → String → List String → Service B → Sending × Service B
  insert req id [] s = (panicked, s)
  insert req id (r ∷ rs) s =
      let (row, s1) = on_backend (insert_message (params_of req id)) s in inserted req id row s1

  unfoldable pub send_message : SendRequest → Service B → Sending × Service B
  send_message req s =
      let id = conversation_of digest req s.backend.now in
      let (ensured, s1) =
        on_backend (ensure_conversation id (kind_of (sole req.recipient_phones))) s in
      if ensured then insert req id req.recipient_phones s1 else (failed, s1)

  abbrev pub id_in : Option (Frame M) → Option String
  id_in none = none
  id_in (some frame) = text_at "message_id" frame.payload

  abbrev pub acknowledged : String → Option String → Service B → Service B
  acknowledged user_phone none s = s
  acknowledged user_phone (some id) s = receive id user_phone "delivered" s

  -- One round of `DrainPending` for what it took.
  unfoldable pub drain_one : String → B → Service B → Service B
  drain_one user_phone bytes s =
      acknowledged user_phone (id_in (unmarshal_frame lib bytes)) (broadcast user_phone bytes s)

  -- The loop ends well when the list is empty, and goes on with what `RPop` took.
  abbrev pub drained_with :
      (B → Service B → Option (Bool × Service B)) → Popped B × Service B → Option (Bool × Service B)
  drained_with next (lost, s) = some (false, s)
  drained_with next (empty, s) = some (true, s)
  drained_with next (got bytes, s) = next bytes s

  -- The loop of `DrainPending`: whether it ended well; `none` is too little fuel.
  unfoldable pub drain_from : ℕ → String → Service B → Option (Bool × Service B)
  drain_from zero user_phone s = none
  drain_from (suc n) user_phone s =
      drained_with (λ bytes s1. drain_from n user_phone (drain_one user_phone bytes s1))
        (pop_inbox (inbox_key user_phone) s)

  unfoldable pub drain_pending : ℕ → String → Service B → Option (Bool × Service B)
  drain_pending n user_phone s = if s.stored then drain_from n user_phone s else some (true, s)
