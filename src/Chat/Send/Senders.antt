-- ===== src/Chat/Send/Senders.antt =====
-- Who the messages that `SendMessage` stores are from.
use wire_server.Prelude.{
  String, Bool, true, false, Option, none, some, List, [], ◌∷◌, ◌++◌, ◌≡◌, ◌∙◌, refl, sym, ◌==◌,
  inl, inr, Bool-cases, All, if◌then◌else◌,
}
use mathlib.Core.Path.{subst}
use wire_server.Text.{trim_space, ◌<>◌}
use wire_server.Chat.Backend.{
  Backend, Message, WireMessage, Payload, direct, InsertMessageParams, attempt, fetch,
  ensure_conversation, insert_message, new_message, upsert_message_status, publish_event,
  redis_publish, redis_get, push_offline, get_group_members,
}
use wire_server.Chat.Delivery.{
  sender_channel, is_online, deliver_online, deliver_offline, deliver_to_recipient, deliver_all,
}
use wire_server.Chat.Recipients.{build_conversation_id}
use wire_server.Chat.Send.{
  SendMessageInput, resolve_recipients, announce, store, send_to, send_message, trimmed,
  message_params,
}

-- A call that fails or not, and keeps the messages either way.
either-messages {ℓ} :
    {A : Type ℓ} (lost : Bool) (failed done : A × Backend) (b : Backend)
    → failed.1.messages ≡ b.messages
    → done.1.messages ≡ b.messages
    → (if lost then failed else done).1.messages ≡ b.messages
either-messages true failed done b u v = u
either-messages false failed done b u v = v

get_group_members-messages :
    (g : String) (b : Backend) → (get_group_members g b).1.messages ≡ b.messages
unfolding get_group_members fetch
get_group_members-messages g b = either-messages (b.fails b.calls) _ _ b refl refl

upsert_message_status-messages :
    (m u st : String) (b : Backend) → (upsert_message_status m u st b).1.messages ≡ b.messages
unfolding upsert_message_status
upsert_message_status-messages m u st b = either-messages (b.fails b.calls) _ _ b refl refl

publish_event-messages :
    (stream : String) (p : Payload) (b : Backend)
    → (publish_event stream p b).1.messages ≡ b.messages
unfolding publish_event attempt
publish_event-messages stream p b = either-messages (b.fails b.calls) _ _ b refl refl

redis_publish-messages :
    (channel : String) (p : Payload) (b : Backend)
    → (redis_publish channel p b).1.messages ≡ b.messages
unfolding redis_publish attempt
redis_publish-messages channel p b = either-messages (b.fails b.calls) _ _ b refl refl

push_offline-messages :
    (key : String) (p : Payload) (b : Backend) → (push_offline key p b).1.messages ≡ b.messages
unfolding push_offline attempt
push_offline-messages key p b = either-messages (b.fails b.calls) _ _ b refl refl

ensure_conversation-messages :
    (id kind : String) (b : Backend) → (ensure_conversation id kind b).1.messages ≡ b.messages
unfolding ensure_conversation attempt
ensure_conversation-messages id kind b = either-messages (b.fails b.calls) _ _ b refl refl

is_online-messages : (r : String) (b : Backend) → (is_online r b).1.messages ≡ b.messages
unfolding is_online redis_get fetch
is_online-messages r b = either-messages (b.fails b.calls) _ _ b refl refl

deliver_online-messages :
    (r : String) (m : WireMessage) (b : Backend) → (deliver_online r m b).messages ≡ b.messages
unfolding deliver_online
deliver_online-messages r m b =
    upsert_message_status-messages m.message_id r "delivered"
      (redis_publish (sender_channel r) (direct r m) b).1
    ∙ redis_publish-messages (sender_channel r) (direct r m) b

deliver_offline-messages :
    (r : String) (m : WireMessage) (b : Backend) → (deliver_offline r m b).messages ≡ b.messages
unfolding deliver_offline
deliver_offline-messages r m b = push_offline-messages ("offline:" <> r) (direct r m) b

deliver_to_recipient-messages :
    (r : String) (m : WireMessage) (b : Backend)
    → (deliver_to_recipient r m b).messages ≡ b.messages
unfolding deliver_to_recipient
deliver_to_recipient-messages r m b = elim (Bool-cases (is_online r b).0) [
  | inl online ↦ rw online (deliver_online-messages r m (is_online r b).1 ∙ is_online-messages r b)
  | inr offline ↦
      rw offline (deliver_offline-messages r m (is_online r b).1 ∙ is_online-messages r b)
]

deliver_all-messages :
    (rs : List String) (m : WireMessage) (b : Backend) → (deliver_all rs m b).messages ≡ b.messages
unfolding deliver_all
deliver_all-messages [] m b = refl
deliver_all-messages (r ∷ rs) m b =
    deliver_all-messages rs m (deliver_to_recipient r m b) ∙ deliver_to_recipient-messages r m b

append-All {ℓ} :
    (P : Message → Type ℓ) (ms : List Message) (m : Message) → All P ms → P m → All P (ms ++ m ∷ [])
append-All P [] m tt pm = (pm, tt)
append-All P (x ∷ ms) m (px, rest) pm = (px, append-All P ms m rest pm)

module _ {ℓ} (P : String → Type ℓ) where
  -- Every stored message is from a sender of the kind.
  abbrev pub Signed : Backend → Type ℓ
  Signed b = All (λ m. P m.sender_phone) b.messages

  Signed-same : (b b' : Backend) → b'.messages ≡ b.messages → Signed b → Signed b'
  Signed-same b b' e v =
      subst (All (λ m. P m.sender_phone)) {x = b.messages} {y = b'.messages} (sym e) v

  insert_message-Signed :
      (arg : InsertMessageParams) (b : Backend)
      → P arg.sender_phone
      → Signed b
      → Signed (insert_message arg b).1
  unfolding insert_message new_message
  insert_message-Signed arg b p v = elim (Bool-cases (b.fails b.calls)) [
    | inl lost ↦ rw lost v
    | inr fine ↦ rw fine (append-All (λ m. P m.sender_phone) b.messages (new_message arg b) v p)
  ]

  module _ (validate : SendMessageInput → Bool) (order : List String → List String) where
    announce-messages :
        (input : SendMessageInput) (rs : List String) (row : Option Message) (b : Backend)
        → (announce validate order input rs row b).1.messages ≡ b.messages
    unfolding announce
    announce-messages input rs none b = refl
    announce-messages input rs (some m) b =
        deliver_all-messages _ _ _
        ∙ publish_event-messages _ _ _
        ∙ upsert_message_status-messages _ _ _ b

    store-Signed :
        (input : SendMessageInput) (r : String) (rs : List String) (b : Backend)
        → P input.sender_phone
        → Signed b
        → Signed (store validate order input r rs b).1
    unfolding store message_params
    store-Signed input r rs b p v =
        let id = build_conversation_id input.sender_phone (r ∷ rs) input.group_id in
        let kind = if input.group_id == "" then "direct" else "group" in
        let b1 = (ensure_conversation id kind b).1 in
        let v1 = Signed-same b b1 (ensure_conversation-messages id kind b) v in
        elim (Bool-cases (ensure_conversation id kind b).0) [
          | inl fine ↦
              let stored = insert_message (message_params input id r) b1 in
              rw fine (
                Signed-same stored.1 (announce validate order input (r ∷ rs) stored.0 stored.1).1
                  (announce-messages input (r ∷ rs) stored.0 stored.1)
                  (insert_message-Signed (message_params input id r) b1 p v1))
          | inr lost ↦ rw lost v1
        ]

    send_to-Signed :
        (input : SendMessageInput) (rs : Option (List String)) (b : Backend)
        → P input.sender_phone
        → Signed b
        → Signed (send_to validate order input rs b).1
    unfolding send_to
    send_to-Signed input none b p v = v
    send_to-Signed input (some []) b p v = v
    send_to-Signed input (some (r ∷ rs)) b p v = store-Signed input r rs b p v

    resolve_recipients-messages :
        (input : SendMessageInput) (b : Backend)
        → (resolve_recipients input b).1.messages ≡ b.messages
    unfolding resolve_recipients
    resolve_recipients-messages input b = elim (Bool-cases (input.group_id == "")) [
      | inl named ↦ rw named refl
      | inr group ↦ rw group (get_group_members-messages input.group_id b)
    ]

    -- `SendMessage` stores only messages from the request's sender, blanks trimmed.
    pub send_message-Signed :
        (req : SendMessageInput) (b : Backend)
        → P (trim_space req.sender_phone)
        → Signed b
        → Signed (send_message validate order req b).1
    unfolding send_message
    send_message-Signed req b p v = elim (Bool-cases (validate (trimmed req))) [
      | inl good ↦
          let found = resolve_recipients (trimmed req) b in
          rw good (
            send_to-Signed (trimmed req) found.0 found.1 p
              (Signed-same b found.1 (resolve_recipients-messages (trimmed req) b) v))
      | inr bad ↦ rw bad v
    ]
