-- ===== src/Chat/Service/Untold.antt =====
-- `SendMessage` of the older chat service where it does not answer with a message.
use wire_server.Prelude.{
  String, Bool, true, false, Option, none, some, List, [], ◌∷◌, ◌≡◌, refl, ◌∙◌, inl, inr,
  Bool-cases,
}
use wire_server.Sockets.Frames.{Structs}
use wire_server.Chat.Backend.{Message, InsertMessageParams, ensure_conversation, insert_message}
use wire_server.Chat.Service.State.{Service, on_backend, add_member, add_members, receive}
use wire_server.Chat.Service.{
  SendRequest, Sending, panicked, failed, answered, conversation_of, params_of, acknowledge,
  inserted, insert, send_message, kind_of, sole,
}
use wire_server.Chat.Service.Inbox.{in_either}

abbrev pub is_answer : Sending → Bool
is_answer panicked = false
is_answer failed = false
is_answer (answered msg) = true

module _ {B : Type 0} where
  -- The hub got nothing, no list of Redis changed, and no event went out.
  pub record Untold (s t : Service B) : Type 0 where
    pub hub_same : t.broadcasts ≡ s.broadcasts
    pub inboxes_same : t.inboxes ≡ s.inboxes
    pub events_same : t.backend.events ≡ s.backend.events

  Untold-trans : (s t u : Service B) → Untold s t → Untold t u → Untold s u
  Untold-trans s t u p q = record {
    hub_same = q.hub_same ∙ p.hub_same;
    inboxes_same = q.inboxes_same ∙ p.inboxes_same;
    events_same = q.events_same ∙ p.events_same;
  }

  receive-Untold : (m u status : String) (s : Service B) → Untold s (receive m u status s)
  unfolding receive
  receive-Untold m u status s = elim (Bool-cases (s.backend.fails s.backend.calls)) [
    | inl fails ↦ rw fails (record { hub_same = refl; inboxes_same = refl; events_same = refl })
    | inr fine ↦ rw fine (record { hub_same = refl; inboxes_same = refl; events_same = refl })
  ]

  add_member-Untold : (id p : String) (s : Service B) → Untold s (add_member id p s)
  unfolding add_member
  add_member-Untold id p s = elim (Bool-cases (s.backend.fails s.backend.calls)) [
    | inl fails ↦ rw fails (record { hub_same = refl; inboxes_same = refl; events_same = refl })
    | inr fine ↦ rw fine (record { hub_same = refl; inboxes_same = refl; events_same = refl })
  ]

  add_members-Untold :
      (id : String) (ps : List String) (s : Service B) → Untold s (add_members id ps s)
  add_members-Untold id [] s = record { hub_same = refl; inboxes_same = refl; events_same = refl }
  add_members-Untold id (p ∷ ps) s =
      Untold-trans s (add_member id p s) _ (add_member-Untold id p s)
        (add_members-Untold id ps (add_member id p s))

  ensure-Untold :
      (id kind : String) (s : Service B) → Untold s (on_backend (ensure_conversation id kind) s).1
  unfolding ensure_conversation
  ensure-Untold id kind s = elim (Bool-cases (s.backend.fails s.backend.calls)) [
    | inl fails ↦ rw fails (record { hub_same = refl; inboxes_same = refl; events_same = refl })
    | inr fine ↦ rw fine (record { hub_same = refl; inboxes_same = refl; events_same = refl })
  ]

  insert_message-Untold :
      (arg : InsertMessageParams) (s : Service B) → Untold s (on_backend (insert_message arg) s).1
  unfolding insert_message
  insert_message-Untold arg s = elim (Bool-cases (s.backend.fails s.backend.calls)) [
    | inl fails ↦ rw fails (record { hub_same = refl; inboxes_same = refl; events_same = refl })
    | inr fine ↦ rw fine (record { hub_same = refl; inboxes_same = refl; events_same = refl })
  ]

module _ {M O E B : Type 0} (lib : Structs M O E B) (pack : List (String × String) → M)
    (text_at : String → M → Option String) (digest : String → String) where
  -- What `Untold` says unless there is an answer.
  abbrev Quiet : Service B → Sending × Service B → Type 0
  Quiet s (outcome, t) = is_answer outcome ≡ false → Untold s t

  acknowledge-Quiet :
      (req : SendRequest) (id : String) (msg : Message) (o : Option B) (s t : Service B)
      → Untold s t
      → Quiet s (acknowledge lib pack text_at digest req id msg o t)
  unfolding acknowledge
  acknowledge-Quiet req id msg none s t u h = u
  acknowledge-Quiet req id msg (some bytes) s t u h = absurd (cc h)

  inserted-Quiet :
      (req : SendRequest) (id : String) (row : Option Message) (s t : Service B)
      → Untold s t
      → Quiet s (inserted lib pack text_at digest req id row t)
  unfolding inserted
  inserted-Quiet req id none s t u h = u
  inserted-Quiet req id (some msg) s t u h =
      let t1 = add_members id req.recipient_phones t in
      let t2 = add_member id req.sender_phone t1 in
      let u2 =
        Untold-trans t t1 t2 (add_members-Untold id req.recipient_phones t)
          (add_member-Untold id req.sender_phone t1) in
      let u3 = Untold-trans t t2 _ u2 (receive-Untold msg.id req.sender_phone "sent" t2) in
      acknowledge-Quiet req id msg _ s _ (Untold-trans s t _ u u3) h

  insert-Quiet :
      (req : SendRequest) (id : String) (rs : List String) (s t : Service B)
      → Untold s t
      → Quiet s (insert lib pack text_at digest req id rs t)
  unfolding insert
  insert-Quiet req id [] s t u h = u
  insert-Quiet req id (r ∷ rs) s t u h =
      inserted-Quiet req id _ s _
        (Untold-trans s t _ u (insert_message-Untold (params_of req id) t)) h

  no_recipients :
      (req : SendRequest) (id : String) (rs : List String) (t : Service B)
      → rs ≡ []
      → is_answer (insert lib pack text_at digest req id rs t).0 ≡ false
  unfolding insert
  no_recipients req id [] t bare = refl
  no_recipients req id (r ∷ rs) t bare = absurd (cc bare)

  -- Unless `SendMessage` answers with the message, whether it fails or panics, the hub got nothing, no
  -- list of Redis changed and no event went out, whatever calls fail; and it never answers a request
  -- without recipients.
  pub send_message-Untold :
      (req : SendRequest) (s : Service B)
      → (is_answer (send_message lib pack text_at digest req s).0 ≡ false
          → Untold s (send_message lib pack text_at digest req s).1)
        × (req.recipient_phones ≡ []
            → is_answer (send_message lib pack text_at digest req s).0 ≡ false)
  unfolding send_message
  send_message-Untold req s =
      let id = conversation_of digest req s.backend.now in
      let ensure = on_backend (ensure_conversation id (kind_of (sole req.recipient_phones))) s in
      let u = ensure-Untold id (kind_of (sole req.recipient_phones)) s in
      (
        in_either (λ p. Quiet s p) ensure.0 _ _
            (insert-Quiet req id req.recipient_phones s ensure.1 u) (λ h. u),
        λ bare.
            in_either (λ (p : Sending × Service B). is_answer p.0 ≡ false) ensure.0 _ _
              (no_recipients req id req.recipient_phones ensure.1 bare) refl,
      )
