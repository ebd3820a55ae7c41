-- ===== src/Chat/Service/Inbox.antt =====
-- A list of Redis as a queue: `LPush` at one end, `RPop` at the other.
use wire_server.Prelude.{
  ℕ, ◌+◌, ◌*◌, ◌<◌, String, Bool, true, false, none, some, List, [], ◌∷◌, ◌++◌, ◌==◌, ◌≡◌, refl,
  sym, ◌∙◌, ap, ltb, inl, inr, Bool-cases, arith, eq_refl, if◌then◌else◌,
}
use mathlib.Core.List.{reverse, reverse-cons, reverse-append}
use wire_server.Services.Presence.{tracker_is_online}
use wire_server.Chat.Service.State.{
  Inbox, Service, empty, got, set_inbox, live, pushed, lpush, expire, rpop, pop_inbox, online_or,
  check_online,
}

pub in_either {ℓ κ} :
    {A : Type ℓ} (P : A → Type κ) (b : Bool) (x y : A) → P x → P y → P (if b then x else y)
in_either P true x y p q = p
in_either P false x y p q = q

pub in_then {ℓ κ} :
    {A : Type ℓ} (P : A → Type κ) (b : Bool) (x y : A) → b ≡ true → P x → P (if b then x else y)
in_then P true x y h p = p
in_then P false x y h p = absurd (cc h)

module _ {B : Type 0} where
  rpop_last : (b : B) (xs : List B) → rpop (xs ++ b ∷ []) ≡ some (b, xs)
  rpop_last b [] = refl
  rpop_last b (x ∷ xs) = rw (rpop_last b xs) refl

  -- What is pushed is first, as long as the list has not expired since.
  live-pushed :
      (time now : ℕ) (b : B) (inbox : Inbox B)
      → live time inbox ≡ live now inbox
      → live time (pushed b inbox.1 (live now inbox)) ≡ b ∷ live now inbox
  live-pushed time now b ([], none) same = refl
  live-pushed time now b (x ∷ xs, none) same = refl
  live-pushed time now b (items, some e) same = elim (Bool-cases (ltb now e)) [
    | inl alive ↦ rw alive (push_alive time b items e (rw alive at same))
    | inr dead ↦ rw dead refl
  ]
    where
      push_alive :
          (time : ℕ) (b : B) (items : List B) (e : ℕ)
          → live time (items, some e) ≡ items
          → live time (pushed b (some e) items) ≡ b ∷ items
      push_alive time b [] e same = refl
      push_alive time b (x ∷ xs) e same = elim (Bool-cases (ltb time e)) [
        | inl alive ↦ rw alive refl
        | inr dead ↦ absurd (cc (sym (rw dead at same)))
      ]

  -- What is left when the oldest is gone.
  live-rest :
      (now : ℕ) (b : B) (xs : List B) (inbox : Inbox B)
      → live now inbox ≡ xs ++ b ∷ []
      → live now (xs, inbox.1) ≡ xs
  live-rest now b xs (items, none) h = refl
  live-rest now b xs (items, some e) h = elim (Bool-cases (ltb now e)) [
    | inl alive ↦ rw alive refl
    | inr dead ↦ absurd (not_nil xs (rw dead at h))
  ]
    where
      not_nil : (xs : List B) → [] ≡ xs ++ b ∷ [] → ⊥
      not_nil [] h = cc h
      not_nil (x ∷ xs) h = cc h

  -- No call fails, and what waits under a key until some time, the oldest first; the rest is as in `s`.
  pub record Shelf (s : Service B) (key : String) (until : ℕ) (queue : List B) (t : Service B)
      : Type 0 where
    pub no_failures : (n : ℕ) → t.backend.fails n ≡ false
    pub clock : t.backend.now ≡ s.backend.now
    pub keys_same : t.keys ≡ s.keys
    pub traced_same : t.traced ≡ s.traced
    pub stored_same : t.stored ≡ s.stored
    pub broadcasts_same : t.broadcasts ≡ s.broadcasts
    pub receipts_same : t.receipts ≡ s.receipts
    pub waits : (time : ℕ) → time < until → live time (t.inboxes key) ≡ reverse queue
    pub others : (k : String) → (k == key) ≡ false → t.inboxes k ≡ s.inboxes k

  pub lpush-Shelf :
      (s t : Service B) (key : String) (until : ℕ) (queue : List B) (b : B)
      → t.backend.now < until
      → Shelf s key until queue t
      → Shelf s key until (queue ++ b ∷ []) (lpush key b t)
  unfolding lpush
  lpush-Shelf s t key until queue b soon h = rw (h.no_failures t.backend.calls) (record {
    no_failures = h.no_failures;
    clock = h.clock;
    keys_same = h.keys_same;
    traced_same = h.traced_same;
    stored_same = h.stored_same;
    broadcasts_same = h.broadcasts_same;
    receipts_same = h.receipts_same;
    waits = λ time before. rw (eq_refl key) (
        live-pushed time t.backend.now b (t.inboxes key)
          (h.waits time before ∙ sym (h.waits t.backend.now soon))
        ∙ ap (◌∷◌ b) (h.waits t.backend.now soon)
        ∙ sym (reverse-append queue (b ∷ [])));
    others = λ k other. rw other (h.others k other);
  })

  pub expire-Shelf :
      (s t : Service B) (key : String) (until : ℕ) (queue : List B)
      → t.backend.now < until
      → until ≡ t.backend.now + 24 * 3600
      → Shelf s key until queue t
      → Shelf s key until queue (expire key t)
  unfolding expire
  expire-Shelf s t key until queue soon day h = rw (h.no_failures t.backend.calls) (record {
    no_failures = h.no_failures;
    clock = h.clock;
    keys_same = h.keys_same;
    traced_same = h.traced_same;
    stored_same = h.stored_same;
    broadcasts_same = h.broadcasts_same;
    receipts_same = h.receipts_same;
    waits = λ time before.
        let unexpired : ltb time (t.backend.now + 24 * 3600) ≡ true = ground (arith, day, before) in
        rw (eq_refl key, unexpired) (h.waits t.backend.now soon);
    others = λ k other. rw other (h.others k other);
  })

  -- A user whose key does not say "online" is found offline.
  pub check_online-Shelf :
      (s t : Service B) (key target : String) (until : ℕ) (queue : List B)
      → online_or (tracker_is_online false target t.backend.now t.keys) ≡ false
      → Shelf s key until queue t
      → ((check_online target t).0 ≡ false) × Shelf s key until queue (check_online target t).1
  unfolding check_online
  check_online-Shelf s t key target until queue away h =
      in_either (λ (p : Bool × Service B). (p.0 ≡ false) × Shelf s key until queue p.1) t.traced _ _
        (
          rw (h.no_failures t.backend.calls) away,
          record {
            no_failures = h.no_failures;
            clock = h.clock;
            keys_same = h.keys_same;
            traced_same = h.traced_same;
            stored_same = h.stored_same;
            broadcasts_same = h.broadcasts_same;
            receipts_same = h.receipts_same;
            waits = h.waits;
            others = h.others;
          },
        )
        (refl, h)

  -- `RPop` of a list that holds nothing.
  pub pop_inbox_none :
      (t : Service B) (key : String)
      → t.backend.fails t.backend.calls ≡ false
      → live t.backend.now (t.inboxes key) ≡ []
      → pop_inbox key t
        ≡ (empty, record t { backend = record (t.backend) { calls = t.backend.calls + 1 } })
  unfolding pop_inbox
  pop_inbox_none t key fine waits = rw (fine, waits) refl

  -- `RPop` takes the oldest.
  pub pop_inbox_oldest :
      (t : Service B) (key : String) (b : B) (queue : List B)
      → t.backend.fails t.backend.calls ≡ false
      → live t.backend.now (t.inboxes key) ≡ reverse (b ∷ queue)
      → (pop_inbox key t ≡ (
        got b,
        record t {
          backend = record (t.backend) { calls = t.backend.calls + 1 };
          inboxes = set_inbox key (reverse queue, (t.inboxes key).1) t.inboxes;
        },
      ))
        × (live t.backend.now (reverse queue, (t.inboxes key).1) ≡ reverse queue)
  unfolding pop_inbox
  pop_inbox_oldest t key b queue fine waits =
      let last : live t.backend.now (t.inboxes key) ≡ reverse queue ++ b ∷ [] =
        waits ∙ reverse-cons b queue in
      (
        rw (fine, last, rpop_last b (reverse queue)) refl,
        live-rest t.backend.now b (reverse queue) (t.inboxes key) last,
      )
