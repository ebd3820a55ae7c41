-- ===== src/Chat/Send/Failures.antt =====
-- What `SendMessage` has done when it answers an error.
use wire_server.Prelude.{
  String, Bool, Option, none, some, List, [], ◌∷◌, ◌≡◌, ◌∙◌, if◌then◌else◌, ◌==◌, refl, inl, inr,
  Bool-cases,
}
use wire_server.Chat.Backend.{
  Backend, tick, InsertMessageParams, attempt, fetch, ensure_conversation, insert_message,
  get_group_members,
}
use wire_server.Chat.Recipients.{build_conversation_id}
use wire_server.Chat.Send.{
  Code, Result, failed, ok, SendMessageInput, SendMessageResponse, resolve_recipients, announce,
  store, send_to, send_message, trimmed, message_params,
}

-- Nothing that anybody would see.
pub record Unseen (b b' : Backend) : Type 0 where
  pub messages_same : b'.messages ≡ b.messages
  pub statuses_same : b'.statuses ≡ b.statuses
  pub published_same : b'.published ≡ b.published
  pub offline_same : b'.offline ≡ b.offline
  pub events_same : b'.events ≡ b.events

-- An error leaves nothing to see.
abbrev Quiet : Backend → Result SendMessageResponse × Backend → Type 0
Quiet b (ok r, b') = Unit
Quiet b (failed c, b') = Unseen b b'

Quiet-Unseen :
    (b : Backend) (p : Result SendMessageResponse × Backend) (c : Code)
    → p.0 ≡ failed c
    → Quiet b p
    → Unseen b p.1
Quiet-Unseen b (ok r, b') c h u = absurd (cc h)
Quiet-Unseen b (failed d, b') c h u = u

trans : (a b c : Backend) → Unseen a b → Unseen b c → Unseen a c
trans a b c u v = record {
  messages_same = v.messages_same ∙ u.messages_same;
  statuses_same = v.statuses_same ∙ u.statuses_same;
  published_same = v.published_same ∙ u.published_same;
  offline_same = v.offline_same ∙ u.offline_same;
  events_same = v.events_same ∙ u.events_same;
}

same : (b : Backend) → Unseen b b
same b = record {
  messages_same = refl;
  statuses_same = refl;
  published_same = refl;
  offline_same = refl;
  events_same = refl;
}

ticked : (b : Backend) → Unseen b (tick b)
ticked b = record {
  messages_same = refl;
  statuses_same = refl;
  published_same = refl;
  offline_same = refl;
  events_same = refl;
}

fetch-tick {ℓ} : {A : Type ℓ} (q : Backend → A) (b : Backend) → (fetch q b).1 ≡ tick b
unfolding fetch
fetch-tick q b = elim (Bool-cases (b.fails b.calls)) [
  | inl lost ↦ rw lost refl
  | inr fine ↦ rw fine refl
]

get_group_members-Unseen : (g : String) (b : Backend) → Unseen b (get_group_members g b).1
unfolding get_group_members
get_group_members-Unseen g b = rw (get_group_members, fetch-tick) (ticked b)

resolve_recipients-Unseen :
    (input : SendMessageInput) (b : Backend) → Unseen b (resolve_recipients input b).1
unfolding resolve_recipients
resolve_recipients-Unseen input b = elim (Bool-cases (input.group_id == "")) [
  | inl direct ↦ rw direct (same b)
  | inr group ↦ rw group (get_group_members-Unseen input.group_id b)
]

ensure_conversation-Unseen :
    (id kind : String) (b : Backend) → Unseen b (ensure_conversation id kind b).1
unfolding ensure_conversation attempt
ensure_conversation-Unseen id kind b = elim (Bool-cases (b.fails b.calls)) [
  | inl lost ↦ rw lost (ticked b)
  | inr fine ↦ rw fine (record {
    messages_same = refl;
    statuses_same = refl;
    published_same = refl;
    offline_same = refl;
    events_same = refl;
  })
]

module _ (validate : SendMessageInput → Bool) (order : List String → List String) where
  insert-Quiet :
      (input : SendMessageInput) (rs : List String) (arg : InsertMessageParams) (b0 b : Backend)
      → Unseen b0 b
      → (let (row, b') = insert_message arg b in Quiet b0 (announce validate order input rs row b'))
  unfolding insert_message announce
  insert-Quiet input rs arg b0 b u = elim (Bool-cases (b.fails b.calls)) [
    | inl lost ↦ rw (insert_message, lost, announce) (trans b0 b (tick b) u (ticked b))
    | inr fine ↦ rw (insert_message, fine, announce) tt
  ]

  store-Quiet :
      (input : SendMessageInput) (r : String) (rs : List String) (b0 b : Backend)
      → Unseen b0 b
      → Quiet b0 (store validate order input r rs b)
  unfolding store
  store-Quiet input r rs b0 b u =
      let id = build_conversation_id input.sender_phone (r ∷ rs) input.group_id in
      let kind = if input.group_id == "" then "direct" else "group" in
      let u1 = trans b0 b _ u (ensure_conversation-Unseen id kind b) in
      elim (Bool-cases (ensure_conversation id kind b).0) [
        | inl fine ↦ rw fine (insert-Quiet input (r ∷ rs) (message_params input id r) b0 _ u1)
        | inr lost ↦ rw lost u1
      ]

  send_to-Quiet :
      (input : SendMessageInput) (rs : Option (List String)) (b0 b : Backend)
      → Unseen b0 b
      → Quiet b0 (send_to validate order input rs b)
  unfolding send_to
  send_to-Quiet input none b0 b u = u
  send_to-Quiet input (some []) b0 b u = u
  send_to-Quiet input (some (r ∷ rs)) b0 b u = store-Quiet input r rs b0 b u

  send_message-Quiet :
      (req : SendMessageInput) (b : Backend) → Quiet b (send_message validate order req b)
  unfolding send_message
  send_message-Quiet req b = elim (Bool-cases (validate (trimmed req))) [
    | inl good ↦ rw good (
        send_to-Quiet (trimmed req) (resolve_recipients (trimmed req) b).0 b _
          (resolve_recipients-Unseen (trimmed req) b))
    | inr bad ↦ rw bad (same b)
  ]

  -- When `SendMessage` answers an error, no message and no status has been stored, nothing was
  -- published or queued, and no event was sent.
  pub send_message-failed :
      (req : SendMessageInput) (b : Backend) (c : Code)
      → (send_message validate order req b).0 ≡ failed c
      → Unseen b (send_message validate order req b).1
  send_message-failed req b c h =
      Quiet-Unseen b (send_message validate order req b) c h (send_message-Quiet req b)
