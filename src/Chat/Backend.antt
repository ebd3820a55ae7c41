-- ===== src/Chat/Backend.antt =====
-- What the chat server keeps outside itself: the rows of the primary and of the replica
-- (pkg/db/sqlc/chat_service.sql.go, pkg/db/sqlc/messages.sql.go), the Redis keys and channels, and
-- the event bus. Any call may fail: `fails` says which, by the number of the call.
use wire_server.Prelude.{
  ℕ, ◌+◌, ◌*◌, String, Bool, true, false, ◌&&◌, ◌||◌, Option, none, some, List, [], ◌∷◌, ◌++◌, ◌==◌,
  map, if◌then◌else◌,
}
use wire_server.Storage.Rows.{GroupMember}
use wire_server.Storage.Statements.{select_rows, order_by, in_group}

pub record Message : Type 0 where
  pub id : String
  pub conversation_id : String
  pub sender_phone : String
  pub body : String
  pub media_url : Option String
  pub created_at : ℕ
  pub recipient_phone : Option String
  pub group_id : Option String
  pub body_encrypted : String
  pub body_type : String
  pub server_ts : ℕ

pub record MessageStatus : Type 0 where
  pub message_id : String
  pub user_phone : String
  pub status : String
  pub updated_at : ℕ

-- `chatpb.Message`
pub record WireMessage : Type 0 where
  pub message_id : String
  pub sender_phone : String
  pub recipient_phones : List String
  pub body : String
  pub status : String
  pub created_at : ℕ

-- What goes over the bus and the Redis channels.
pub data Payload : Type 0 where
  sent : WireMessage → Payload
  status_event : (message_id user_phone status : String) → Payload
  direct : (recipient : String) → WireMessage → Payload
  sender_tick : (stream message_id user_phone status : String) (server_ts : ℕ) → Payload

pub record Backend : Type 0 where
  pub conversations : List (String × String)
  pub messages : List Message
  pub statuses : List MessageStatus
  pub replica_members : List GroupMember
  pub replica_messages : List Message
  pub presence : List (String × String)
  pub published : List (String × Payload)
  pub offline : List (String × Payload)
  pub expiries : List (String × ℕ)
  pub events : List (String × Payload)
  pub new_id : ℕ → String
  pub fails : ℕ → Bool
  pub calls : ℕ
  pub now : ℕ

abbrev pub tick : Backend → Backend
tick b = record b { calls = b.calls + 1 }

-- One call that writes.
unfoldable pub attempt : (Backend → Backend) → Backend → Bool × Backend
attempt f b = if b.fails b.calls then (false, tick b) else (true, tick (f b))

-- One call that reads.
unfoldable pub fetch {ℓ} : {A : Type ℓ} → (Backend → A) → Backend → Option A × Backend
fetch q b = if b.fails b.calls then (none, tick b) else (some (q b), tick b)

abbrev pub lookup_key : String → List (String × String) → Option String
lookup_key k [] = none
lookup_key k ((k', v) ∷ rest) = if k == k' then some v else lookup_key k rest

-- `EnsureConversation`: `ON CONFLICT (id) DO NOTHING`.
abbrev has_key : String → List (String × String) → Bool
has_key k [] = false
has_key k ((k', v) ∷ rest) = (k == k') || has_key k rest

unfoldable pub ensure_conversation : String → String → Backend → Bool × Backend
unfolding attempt
ensure_conversation id kind = attempt (λ b. record b {
  conversations =
      if has_key id b.conversations then b.conversations else (id, kind) ∷ b.conversations;
})

pub record InsertMessageParams : Type 0 where
  pub sender_phone : String
  pub recipient_phone : Option String
  pub group_id : Option String
  pub body_encrypted : String
  pub body_type : String
  pub body : String
  pub conversation_id : String

-- The row that `InsertMessage` stores; the database draws its id.
unfoldable pub new_message : InsertMessageParams → Backend → Message
new_message arg b = record {
  id = b.new_id b.calls;
  conversation_id = arg.conversation_id;
  sender_phone = arg.sender_phone;
  body = arg.body;
  media_url = none;
  created_at = b.now;
  recipient_phone = arg.recipient_phone;
  group_id = arg.group_id;
  body_encrypted = arg.body_encrypted;
  body_type = arg.body_type;
  server_ts = b.now;
}

unfoldable pub insert_message : InsertMessageParams → Backend → Option Message × Backend
unfolding new_message
insert_message arg b = if b.fails b.calls then (none, tick b) else (
  some (new_message arg b),
  tick (record b { messages = b.messages ++ new_message arg b ∷ [] }),
)

abbrev pub is_status : String → String → MessageStatus → Bool
is_status m u s = (s.message_id == m) && (s.user_phone == u)

abbrev pub put_status : MessageStatus → List MessageStatus → List MessageStatus
put_status s [] = s ∷ []
put_status s (q ∷ qs) =
    if is_status s.message_id s.user_phone q then s ∷ qs else q ∷ put_status s qs

abbrev pub find_message : String → List Message → Option Message
find_message id [] = none
find_message id (m ∷ ms) = if m.id == id then some m else find_message id ms

abbrev is_found : Option Message → Bool
is_found none = false
is_found (some m) = true

-- `message_id` refers to `messages`.
abbrev pub is_stored : String → Backend → Bool
is_stored m b = is_found (find_message m b.messages)

-- The rows after an upsert, which fails without its message.
abbrev pub put_stored : String → String → String → Backend → List MessageStatus
put_stored m u status b =
    if is_stored m b
    then put_status (record { message_id = m; user_phone = u; status = status; updated_at = b.now })
        b.statuses
    else b.statuses

-- `UpsertMessageStatus`, with the foreign key of infra/migrations/0004_chat_service.up.sql. The program
-- gives the three statuses that the table's CHECK takes, and no other.
unfoldable pub upsert_message_status : String → String → String → Backend → Bool × Backend
upsert_message_status m u status b =
    if b.fails b.calls
    then (false, tick b)
    else (is_stored m b, tick (record b { statuses = put_stored m u status b }))

abbrev pub status_of : String → String → List MessageStatus → Option String
status_of m u [] = none
status_of m u (q ∷ qs) = if is_status m u q then some q.status else status_of m u qs

abbrev no_row : Option (Option Message) → Option Message
no_row none = none
no_row (some o) = o

-- `GetMessageByID`: a missing row is an error too.
unfoldable pub get_message_by_id : String → Backend → Option Message × Backend
unfolding fetch
get_message_by_id id b = let (o, b') = fetch (λ b. find_message id b.messages) b in (no_row o, b')

-- `GetGroupMembers`, of the replica.
unfoldable pub get_group_members : String → Backend → Option (List String) × Backend
unfolding fetch select_rows order_by
get_group_members g = fetch (λ b.
    map (λ m. m.user_phone)
      (order_by (λ m. m.created_at) (select_rows (in_group g) b.replica_members)))

-- `s.bus.Publish`
unfoldable pub publish_event : String → Payload → Backend → Bool × Backend
unfolding attempt
publish_event stream p = attempt (λ b. record b { events = b.events ++ (stream, p) ∷ [] })

-- `s.redis.Publish`
unfoldable pub redis_publish : String → Payload → Backend → Bool × Backend
unfolding attempt
redis_publish channel p = attempt (λ b. record b { published = b.published ++ (channel, p) ∷ [] })

-- The pipeline of `LPush` and `Expire` with `offlineTTL`, 24 hours in seconds.
unfoldable pub push_offline : String → Payload → Backend → Bool × Backend
unfolding attempt
push_offline key p = attempt (λ b. record b {
  offline = (key, p) ∷ b.offline;
  expiries = (key, b.now + 24 * 3600) ∷ b.expiries;
})

abbrev flat : Option (Option String) → Option String
flat none = none
flat (some o) = o

-- `s.redis.Get`; a missing key is an error.
unfoldable pub redis_get : String → Backend → Option String × Backend
unfolding fetch
redis_get key b = let (o, b') = fetch (λ b. lookup_key key b.presence) b in (flat o, b')
