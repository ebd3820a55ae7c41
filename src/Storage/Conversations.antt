-- ===== src/Storage/Conversations.antt =====
-- The statements of pkg/db/sqlc/messages.sql.go that the chat server does not use: the members of
-- conversations, receipts and presence, with their rows of pkg/db/sqlc/models.go. A statement gives the
-- row that it returns and the table that it leaves.
use wire_server.Prelude.{
  ℕ, String, Bool, true, ◌&&◌, Option, none, some, List, [], ◌∷◌, ◌++◌, ◌==◌, ◌≡◌, refl, eq_refl,
  arith, inl, inr, Bool-cases, if◌then◌else◌,
}
use wire_server.Storage.Statements.{select_rows, order_by}

pub record ConversationMember : Type 0 where
  pub conversation_id : String
  pub user_phone : String
  pub created_at : ℕ

pub record MessageReceipt : Type 0 where
  pub message_id : String
  pub user_phone : String
  pub status : String
  pub updated_at : ℕ

pub record UserPresence : Type 0 where
  pub user_phone : String
  pub status : String
  pub last_seen : ℕ
  pub updated_at : ℕ

abbrev pub is_member_row : String → String → ConversationMember → Bool
is_member_row c p m = (m.conversation_id == c) && (m.user_phone == p)

abbrev pub find_member : String → String → List ConversationMember → Option ConversationMember
find_member c p [] = none
find_member c p (m ∷ ms) = if is_member_row c p m then some m else find_member c p ms

abbrev member_or_new :
    String
    → String
    → ℕ
    → List ConversationMember
    → Option ConversationMember
    → ConversationMember × List ConversationMember
member_or_new c p now ms (some m) = (m, ms)
member_or_new c p now ms none =
    let m : ConversationMember = record { conversation_id = c; user_phone = p; created_at = now } in
    (m, ms ++ m ∷ [])

-- `AddConversationMember`: a row that is there keeps its time.
unfoldable pub add_conversation_member :
    String → String → ℕ → List ConversationMember → ConversationMember × List ConversationMember
add_conversation_member c p now ms = member_or_new c p now ms (find_member c p ms)

-- `ListConversationMembers`
unfoldable pub list_conversation_members :
    String → List ConversationMember → List ConversationMember
unfolding select_rows order_by
list_conversation_members c ms =
    order_by (λ m. m.created_at) (select_rows (λ m. m.conversation_id == c) ms)

abbrev pub is_receipt : String → String → MessageReceipt → Bool
is_receipt m u r = (r.message_id == m) && (r.user_phone == u)

abbrev put_receipt : MessageReceipt → List MessageReceipt → List MessageReceipt
put_receipt r [] = r ∷ []
put_receipt r (q ∷ qs) =
    if is_receipt r.message_id r.user_phone q then r ∷ qs else q ∷ put_receipt r qs

-- `UpsertReceipt`
unfoldable pub upsert_receipt :
    (message_id user_phone status : String)
    → (now : ℕ) → List MessageReceipt
    → MessageReceipt × List MessageReceipt
upsert_receipt message_id user_phone status now rs =
    let r : MessageReceipt = record {
      message_id = message_id;
      user_phone = user_phone;
      status = status;
      updated_at = now;
    } in
    (r, put_receipt r rs)

abbrev put_presence : UserPresence → List UserPresence → List UserPresence
put_presence u [] = u ∷ []
put_presence u (v ∷ vs) = if v.user_phone == u.user_phone then u ∷ vs else v ∷ put_presence u vs

-- `UpdateUserPresence`
unfoldable pub update_user_presence :
    (user_phone status : String) → (last_seen now : ℕ) → List UserPresence → List UserPresence
update_user_presence user_phone status last_seen now us =
    put_presence
      (record { user_phone = user_phone; status = status; last_seen = last_seen; updated_at = now })
      us

find_member-append :
    (c p : String) (m : ConversationMember) (ms : List ConversationMember)
    → find_member c p ms ≡ none
    → is_member_row c p m ≡ true
    → find_member c p (ms ++ m ∷ []) ≡ some m
find_member-append c p m [] h hit = rw hit refl
find_member-append c p m (q ∷ qs) h hit = elim (Bool-cases (is_member_row c p q)) [
  | inl found ↦ absurd (ground (arith, found))
  | inr passed ↦ rw passed (find_member-append c p m qs (ground (arith, passed)) hit)
]

idempotent_from :
    (c p : String) (now later : ℕ) (ms : List ConversationMember) (o : Option ConversationMember)
    → find_member c p ms ≡ o
    → (let again = (member_or_new c p now ms o).1 in
        member_or_new c p later again (find_member c p again))
      ≡ member_or_new c p now ms o
idempotent_from c p now later ms (some m) e = rw e refl
idempotent_from c p now later ms none e =
    let m : ConversationMember = record { conversation_id = c; user_phone = p; created_at = now } in
    rw (find_member-append c p m ms e (ground (arith, eq_refl c, eq_refl p))) refl

-- `AddConversationMember` a second time, at whatever time, gives the row of the first time and leaves
-- the table as it is.
pub add_conversation_member-add_conversation_member :
    (c p : String) (now later : ℕ) (ms : List ConversationMember)
    → add_conversation_member c p later (add_conversation_member c p now ms).1
      ≡ add_conversation_member c p now ms
unfolding add_conversation_member
add_conversation_member-add_conversation_member c p now later ms =
    idempotent_from c p now later ms (find_member c p ms) refl
