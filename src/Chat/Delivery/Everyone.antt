-- ===== src/Chat/Delivery/Everyone.antt =====
-- Where every recipient's copy of a message ends up.
use wire_server.Prelude.{
  ℕ, String, Bool, false, List, [], ◌∷◌, ◌++◌, ◌+◌, ◌*◌, ap₂, ◌≡◌, refl, ap, ◌∙◌, sym, inl, inr,
  Bool-cases, if◌then◌else◌,
}
use wire_server.Text.{◌<>◌}
use wire_server.Chat.Backend.{
  Backend, tick, put_stored, WireMessage, Payload, direct, lookup_key, attempt, fetch, redis_get,
  redis_publish, upsert_message_status, push_offline,
}
use wire_server.Chat.Delivery.{
  sender_channel, presence_key, says_online, is_online, deliver_online, deliver_offline,
  deliver_to_recipient, deliver_all,
}

abbrev pub online_in : Backend → String → Bool
online_in b r = says_online (lookup_key (presence_key r) b.presence)

-- The copies for those who are online, by channel, in the recipients' order.
abbrev pub copies_online : Backend → WireMessage → List String → List (String × Payload)
copies_online b m [] = []
copies_online b m (r ∷ rs) =
    if online_in b r
    then (sender_channel r, direct r m) ∷ copies_online b m rs
    else copies_online b m rs

-- The copies for the others, in the order of the pushes, behind what was queued before.
abbrev pub copies_offline :
    Backend → WireMessage → List String → List (String × Payload) → List (String × Payload)
copies_offline b m [] queued = queued
copies_offline b m (r ∷ rs) queued =
    copies_offline b m rs (if online_in b r then queued else ("offline:" <> r, direct r m) ∷ queued)

abbrev pub Calm : Backend → Type 0
Calm b = (n : ℕ) → b.fails n ≡ false

-- What a delivery leaves, beside what it sends.
pub record Delivered (b : Backend) (m : WireMessage) (rs : List String) (b' : Backend)
    : Type 0 where
  pub presence_same : b'.presence ≡ b.presence
  pub calm : Calm b'
  pub sent_copies : b'.published ≡ b.published ++ copies_online b m rs
  pub queued_copies : b'.offline ≡ copies_offline b m rs b.offline
  pub messages_same : b'.messages ≡ b.messages

append_nil : (b : List (String × Payload)) → b ++ [] ≡ b
append_nil [] = refl
append_nil (x ∷ xs) = ap (◌∷◌ x) (append_nil xs)

-- With no failure the two calls leave a publication and a status.
deliver_online-Calm :
    (r : String) (m : WireMessage) (b : Backend)
    → Calm b
    → deliver_online r m b ≡ record b {
      calls = b.calls + 1 + 1;
      published = b.published ++ (sender_channel r, direct r m) ∷ [];
      statuses = put_stored m.message_id r "delivered" b;
    }
unfolding deliver_online redis_publish upsert_message_status attempt
deliver_online-Calm r m b calm =
    rw
      (
        deliver_online,
        redis_publish,
        upsert_message_status,
        attempt,
        calm b.calls,
        calm (b.calls + 1),
      )
      refl

deliver_offline-Calm :
    (r : String) (m : WireMessage) (b : Backend)
    → Calm b
    → deliver_offline r m b ≡ record b {
      calls = b.calls + 1;
      offline = ("offline:" <> r, direct r m) ∷ b.offline;
      expiries = ("offline:" <> r, b.now + 24 * 3600) ∷ b.expiries;
    }
unfolding deliver_offline push_offline attempt
deliver_offline-Calm r m b calm = rw (deliver_offline, push_offline, attempt, calm b.calls) refl

is_online-Calm : (r : String) (b : Backend) → Calm b → is_online r b ≡ (online_in b r, tick b)
unfolding is_online redis_get fetch
is_online-Calm r b calm = rw (calm b.calls) refl

deliver_to_recipient-Delivered :
    (r : String) (m : WireMessage) (b : Backend)
    → Calm b
    → Delivered b m (r ∷ []) (deliver_to_recipient r m b)
unfolding deliver_to_recipient
deliver_to_recipient-Delivered r m b calm = elim (Bool-cases (online_in b r)) [
  | inl up ↦
      rw (deliver_to_recipient, is_online-Calm r b calm, up, deliver_online-Calm r m (tick b) calm)
        (record {
          presence_same = refl;
          calm = calm;
          sent_copies = rw up refl;
          queued_copies = rw up refl;
          messages_same = refl;
        })
  | inr down ↦
      rw
        (
          deliver_to_recipient,
          is_online-Calm r b calm,
          down,
          deliver_offline-Calm r m (tick b) calm,
        )
        (record {
          presence_same = refl;
          calm = calm;
          sent_copies = rw (down, append_nil b.published) refl;
          queued_copies = rw down refl;
          messages_same = refl;
        })
]

copies_online-presence :
    (b b' : Backend) (m : WireMessage) (rs : List String)
    → b'.presence ≡ b.presence
    → copies_online b' m rs ≡ copies_online b m rs
copies_online-presence b b' m [] p = refl
copies_online-presence b b' m (r ∷ rs) p = rw (p, copies_online-presence b b' m rs p) refl

copies_offline-presence :
    (b b' : Backend) (m : WireMessage) (rs : List String) (queued : List (String × Payload))
    → b'.presence ≡ b.presence
    → copies_offline b' m rs queued ≡ copies_offline b m rs queued
copies_offline-presence b b' m [] queued p = refl
copies_offline-presence b b' m (r ∷ rs) queued p =
    rw
      (
        p,
        copies_offline-presence b b' m rs
            (if online_in b r then queued else ("offline:" <> r, direct r m) ∷ queued) p,
      )
      refl

copies_online-append_one :
    (b : Backend) (m : WireMessage) (r : String) (rs : List String)
    → copies_online b m (r ∷ []) ++ copies_online b m rs ≡ copies_online b m (r ∷ rs)
copies_online-append_one b m r rs = elim (Bool-cases (online_in b r)) [
  | inl up ↦ rw up refl
  | inr down ↦ rw down refl
]

append_assoc : (a b c : List (String × Payload)) → (a ++ b) ++ c ≡ a ++ (b ++ c)
append_assoc [] b c = refl
append_assoc (x ∷ a) b c = ap (◌∷◌ x) (append_assoc a b c)

-- Where no call fails, `deliverToRecipient` for each recipient in turn publishes one copy on the
-- channel of each who is online, in order, and pushes one copy on the queue of each of the others;
-- it changes neither the presence keys nor the stored messages.
pub deliver_all-Delivered :
    (rs : List String) (m : WireMessage) (b : Backend)
    → Calm b
    → Delivered b m rs (deliver_all rs m b)
unfolding deliver_all
deliver_all-Delivered [] m b calm = record {
  presence_same = refl;
  calm = calm;
  sent_copies = sym (append_nil b.published);
  queued_copies = refl;
  messages_same = refl;
}
deliver_all-Delivered (r ∷ rs) m b calm =
    let b1 = deliver_to_recipient r m b in
    let one = deliver_to_recipient-Delivered r m b calm in
    let rest = deliver_all-Delivered rs m b1 one.calm in
    record {
      presence_same = rest.presence_same ∙ one.presence_same;
      calm = rest.calm;
      sent_copies =
          rest.sent_copies
          ∙ ap₂ (λ u v. u ++ v) one.sent_copies (copies_online-presence b b1 m rs one.presence_same)
          ∙ append_assoc b.published (copies_online b m (r ∷ [])) (copies_online b m rs)
          ∙ ap (λ v. b.published ++ v) (copies_online-append_one b m r rs);
      queued_copies =
          rest.queued_copies
          ∙ copies_offline-presence b b1 m rs b1.offline one.presence_same
          ∙ ap (copies_offline b m rs) one.queued_copies;
      messages_same = rest.messages_same ∙ one.messages_same;
    }
