-- ===== src/Chat/Service/Drained.antt =====
-- What `deliver` stores for a user who is offline comes out of `DrainPending`.
use wire_server.Prelude.{ℕ, ◌+◌, String, false, Option, some, List, [], ◌∷◌, ◌++◌, ◌==◌, ◌≡◌, map}
use wire_server.Storage.Conversations.{MessageReceipt, upsert_receipt}
use wire_server.Sockets.Frames.{Structs, unmarshal_frame}
use wire_server.Chat.Service.State.{Service, inbox_key, set_inbox, live}
use wire_server.Chat.Service.{id_in}
use wire_server.Chat.Service.Stored.{Letter}

-- The receipts after "delivered" is stored for each letter.
abbrev pub mark_each : String → ℕ → List Letter → List MessageReceipt → List MessageReceipt
mark_each user now [] rs = rs
mark_each user now ((m, trace) ∷ ls) rs =
    mark_each user now ls (upsert_receipt m.id user "delivered" now rs).1

module _ {M O E B : Type 0} (lib : Structs M O E B) (pack : List (String × String) → M)
    (text_at : String → M → Option String) (digest : String → String) where
  -- `s'` is `s` with the letters broadcast to the user in order and marked as delivered, and nothing
  -- left in the user's list.
  pub record Emptied (user : String) (enc : Letter → B) (ls : List Letter) (s s' : Service B)
      : Type 0 where
    pub told : s'.broadcasts ≡ s.broadcasts ++ map (λ l. (user ∷ [], enc l)) ls
    pub marked : s'.receipts ≡ mark_each user s.backend.now ls s.receipts
    pub nothing_left : live s.backend.now (s'.inboxes (inbox_key user)) ≡ []
    pub others : (k : String) → (k == inbox_key user) ≡ false → s'.inboxes k ≡ s.inboxes k

  module _ (user : String) (enc : Letter → B)
      (reads : (l : Letter)
        → id_in lib pack text_at digest (unmarshal_frame lib (enc l)) ≡ some (l.0.id)) where
    -- The state after a round that took a letter.
    abbrev round : Letter → List B → Service B → Service B
    round (m, trace) left s = record s {
      backend = record (s.backend) { calls = s.backend.calls + 1 + 1 };
      receipts = (upsert_receipt m.id user "delivered" s.backend.now s.receipts).1;
      inboxes = set_inbox (inbox_key user) (left, (s.inboxes (inbox_key user)).1) s.inboxes;
      broadcasts = s.broadcasts ++ (user ∷ [], enc (m, trace)) ∷ [];
    }
