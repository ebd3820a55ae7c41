-- ===== src/Chat/Service/State.antt =====
-- What the older chat service works on: the tables, the lists of Redis and the hub.
use wire_server.Prelude.{
  ℕ, ◌+◌, ◌*◌, String, Bool, false, Option, none, some, List, [], ◌∷◌, ◌++◌, ◌==◌, ltb,
  if◌then◌else◌,
}
use wire_server.Text.{◌<>◌}
use wire_server.Storage.Conversations.{
  ConversationMember, MessageReceipt, add_conversation_member, upsert_receipt,
}
use wire_server.Services.Presence.{Keys, tracker_is_online}
use wire_server.Chat.Backend.{Backend, tick}

-- A list of Redis, the newest first, and when it expires.
abbrev pub Inbox : Type 0 → Type 0
Inbox B = List B × Option ℕ

-- `Service` with what stands behind it; `traced` and `stored` say whether `presence` and `redis` are
-- there. `broadcasts` is what the hub was given.
pub record Service (B : Type 0) : Type 0 where
  pub backend : Backend
  pub members : List ConversationMember
  pub receipts : List MessageReceipt
  pub traced : Bool
  pub stored : Bool
  pub keys : Keys
  pub inboxes : String → Inbox B
  pub broadcasts : List (List String × B)

pub data Popped (B : Type 0) : Type 0 where
  lost : Popped B
  empty : Popped B
  got : B → Popped B

unfoldable pub inbox_key : String → String
inbox_key user_phone = "inbox:" <> user_phone

abbrev pub online_or : Option Bool → Bool
online_or none = false
online_or (some b) = b

module _ {B : Type 0} where
  abbrev pub on_backend {ℓ} : {A : Type ℓ} → (Backend → A × Backend) → Service B → A × Service B
  on_backend f s = let (a, b) = f s.backend in (a, record s { backend = b })

  -- A call whose failure is not looked at.
  abbrev pub quietly : (Service B → Service B) → Service B → Service B
  quietly f s =
      let t = record s { backend = tick s.backend } in
      if s.backend.fails s.backend.calls then t else f t

  unfoldable pub add_member : String → String → Service B → Service B
  unfolding add_conversation_member
  add_member id phone =
      quietly
        (λ s. record s { members = (add_conversation_member id phone s.backend.now s.members).1 })

  abbrev pub add_members : String → List String → Service B → Service B
  add_members id [] s = s
  add_members id (p ∷ ps) s = add_members id ps (add_member id p s)

  unfoldable pub receive : (message_id user_phone status : String) → Service B → Service B
  unfolding upsert_receipt
  receive message_id user_phone status = quietly (λ s. record s {
    receipts = (upsert_receipt message_id user_phone status s.backend.now s.receipts).1;
  })

  -- `s.hub.Broadcast`, which waits while the hub's channel is full.
  abbrev pub broadcast : String → B → Service B → Service B
  broadcast target bytes s = record s { broadcasts = s.broadcasts ++ (target ∷ [], bytes) ∷ [] }

  abbrev pub set_inbox : String → Inbox B → (String → Inbox B) → String → Inbox B
  set_inbox key inbox inboxes k = if k == key then inbox else inboxes k

  -- What a list holds at a time.
  abbrev pub live : ℕ → Inbox B → List B
  live now (items, none) = items
  live now (items, some expires) = if ltb now expires then items else []

  abbrev pub pushed : B → Option ℕ → List B → Inbox B
  pushed bytes expires [] = (bytes ∷ [], none)
  pushed bytes expires (b ∷ bs) = (bytes ∷ b ∷ bs, expires)

  -- `LPush`: a list that is not there has no expiry.
  unfoldable pub lpush : String → B → Service B → Service B
  lpush key bytes = quietly (λ s. record s {
    inboxes =
        set_inbox key (pushed bytes (s.inboxes key).1 (live s.backend.now (s.inboxes key)))
          s.inboxes;
  })

  -- `Expire` in 24 hours.
  unfoldable pub expire : String → Service B → Service B
  expire key = quietly (λ s. record s {
    inboxes =
        set_inbox key (live s.backend.now (s.inboxes key), some (s.backend.now + 24 * 3600))
          s.inboxes;
  })

  -- What `RPop` takes and what it leaves.
  abbrev pub last_of : B → Option (B × List B) → B × List B
  last_of b none = (b, [])
  last_of b (some (last, rest)) = (last, b ∷ rest)

  abbrev pub rpop : List B → Option (B × List B)
  rpop [] = none
  rpop (b ∷ bs) = some (last_of b (rpop bs))

  abbrev pub popped_from :
      String → Option ℕ → Option (B × List B) → Service B → Popped B × Service B
  popped_from key expires none s = (empty, s)
  popped_from key expires (some (bytes, rest)) s =
      (got bytes, record s { inboxes = set_inbox key (rest, expires) s.inboxes })

  unfoldable pub pop_inbox : String → Service B → Popped B × Service B
  pop_inbox key s =
      let t = record s { backend = tick s.backend } in
      if s.backend.fails s.backend.calls
      then (lost, t)
      else popped_from key (s.inboxes key).1 (rpop (live s.backend.now (s.inboxes key))) t

  -- `IsOnline`, whose failure counts as offline.
  unfoldable pub check_online : String → Service B → Bool × Service B
  unfolding tracker_is_online
  check_online target s =
      if s.traced
      then (
        online_or (tracker_is_online (s.backend.fails s.backend.calls) target s.backend.now s.keys),
        record s { backend = tick s.backend },
      )
      else (false, s)
