-- ===== src/Gateway/Hub/Subscriptions.antt =====
-- `subscribeUser` of services/api-gateway/internal/gateway/hub.go, which `add` starts for a connection:
-- what the chat service publishes for a phone goes to the sockets of that phone.
use wire_server.Prelude.{
  ℕ, String, Bool, true, false, List, [], ◌∷◌, ◌++◌, ◌==◌, ◌≡◌, refl, sym, ◌∙◌, ap, inl, inr,
  Bool-cases, text_cases, eq_iff, eq_refl, if◌then◌else◌,
}
use text.Mathlib.TextLemmas.{append_cancel_left}
use wire_server.Text.{◌<>◌}
use wire_server.Chat.Backend.{Backend, WireMessage, Payload, direct}
use wire_server.Chat.Delivery.{sender_channel, deliver_all}
use wire_server.Chat.Delivery.Everyone.{Calm, online_in, copies_online, deliver_all-Delivered}
use wire_server.Gateway.Hub.{Connection}

-- What comes over a channel, as frames for the connection's socket.
abbrev pub forwarded : ℕ → String → List (String × Payload) → List (ℕ × Payload)
forwarded fd channel [] = []
forwarded fd channel ((c, payload) ∷ rest) =
    let later = forwarded fd channel rest in if c == channel then (fd, payload) ∷ later else later

-- The frames that the connection is sent for what is published while it is subscribed; `lost` says
-- that the subscription fails.
unfoldable pub subscribe_user :
    (lost : Bool) → Connection → List (String × Payload) → List (ℕ × Payload)
subscribe_user lost c published =
    if lost then [] else forwarded c.fd ("pod:user:" <> c.phone) published

-- One frame for each time that a list names the phone.
abbrev pub frames_for : Connection → WireMessage → List String → List (ℕ × Payload)
frames_for c m [] = []
frames_for c m (r ∷ rs) =
    if r == c.phone then (c.fd, direct r m) ∷ frames_for c m rs else frames_for c m rs

forwarded-append :
    (fd : ℕ) (channel : String) (xs ys : List (String × Payload))
    → forwarded fd channel (xs ++ ys) ≡ forwarded fd channel xs ++ forwarded fd channel ys
forwarded-append fd channel [] ys = refl
forwarded-append fd channel ((c, payload) ∷ xs) ys = elim (Bool-cases (c == channel)) [
  | inl hit ↦ rw hit (ap (◌∷◌ (fd, payload)) (forwarded-append fd channel xs ys))
  | inr miss ↦ rw miss (forwarded-append fd channel xs ys)
]

-- Different phones have different channels.
sender_channel-eq : (r p : String) → (sender_channel r == ("pod:user:" <> p)) ≡ (r == p)
unfolding sender_channel
sender_channel-eq r p = elim (text_cases r p) [
  | inl same ↦ rw (same, eq_refl p, eq_refl ("pod:user:" <> p)) refl
  | inr (differ, other) ↦ elim (text_cases ("pod:user:" <> r) ("pod:user:" <> p)) [
    | inl clash ↦ absurd (differ (append_cancel_left "pod:user:" r p clash))
    | inr (apart, unequal) ↦ unequal ∙ sym other
  ]
]

module _ (c : Connection) (b : Backend) (m : WireMessage) where
  abbrev channel : String
  channel = "pod:user:" <> c.phone

  forwarded_online :
      (rs : List String)
      → online_in b c.phone ≡ true
      → forwarded c.fd channel (copies_online b m rs) ≡ frames_for c m rs
  forwarded_online [] here = refl
  forwarded_online (r ∷ rs) here = elim (text_cases r c.phone) [
    | inl same ↦
        let named = (eq_iff r c.phone).1 same in
        let online : online_in b r ≡ true = ap (online_in b) same ∙ here in
        rw (online, sender_channel-eq r c.phone, named)
          (ap (◌∷◌ (c.fd, direct r m)) (forwarded_online rs here))
    | inr (differ, other) ↦ elim (Bool-cases (online_in b r)) [
      | inl online ↦ rw (online, sender_channel-eq r c.phone, other) (forwarded_online rs here)
      | inr offline ↦ rw (offline, other) (forwarded_online rs here)
    ]
  ]

  forwarded_offline :
      (rs : List String)
      → online_in b c.phone ≡ false
      → forwarded c.fd channel (copies_online b m rs) ≡ []
  forwarded_offline [] away = refl
  forwarded_offline (r ∷ rs) away = elim (text_cases r c.phone) [
    | inl same ↦
        let offline : online_in b r ≡ false = ap (online_in b) same ∙ away in
        rw offline (forwarded_offline rs away)
    | inr (differ, other) ↦ elim (Bool-cases (online_in b r)) [
      | inl online ↦ rw (online, sender_channel-eq r c.phone, other) (forwarded_offline rs away)
      | inr offline ↦ rw offline (forwarded_offline rs away)
    ]
  ]

  forwarded-copies_online :
      (rs : List String)
      → forwarded c.fd channel (copies_online b m rs)
        ≡ (if online_in b c.phone then frames_for c m rs else [])
  forwarded-copies_online rs = elim (Bool-cases (online_in b c.phone)) [
    | inl here ↦ rw here (forwarded_online rs here)
    | inr away ↦ rw away (forwarded_offline rs away)
  ]

-- Where no call fails, what the chat service publishes for a message puts on a subscribed connection one
-- frame for each time that the recipients name its phone, in order, if the phone's presence key
-- says "online", and none if not; frames from before stay before them.
pub subscribe_user-deliver_all :
    (c : Connection) (rs : List String) (m : WireMessage) (b : Backend)
    → Calm b
    → subscribe_user false c (deliver_all rs m b).published
      ≡ subscribe_user false c b.published
        ++ (if online_in b c.phone then frames_for c m rs else [])
unfolding subscribe_user
subscribe_user-deliver_all c rs m b calm =
    ap (forwarded c.fd ("pod:user:" <> c.phone)) (deliver_all-Delivered rs m b calm).sent_copies
    ∙ forwarded-append c.fd ("pod:user:" <> c.phone) b.published (copies_online b m rs)
    ∙ ap (λ xs. forwarded c.fd ("pod:user:" <> c.phone) b.published ++ xs)
        (forwarded-copies_online c b m rs)
