-- ===== src/Chat/History.antt =====
-- `GetHistory` of services/chat-service/cmd/server.go, with the statement `GetMessageHistory` of
-- pkg/db/sqlc/chat_service.sql.go.
pub mod Pages
pub mod Paging
use wire_server.Prelude.{
  ℕ, zero, suc, String, Bool, true, false, not, ◌&&◌, ◌||◌, Option, none, some, List, [], ◌∷◌, ◌++◌,
  ◌==◌, map, length, take, last?, leb, ltb, nat_eq, if◌then◌else◌,
}
use wire_server.Text.{trim_space, text_leb}
use wire_server.Storage.Statements.{select_rows}
use wire_server.Chat.Backend.{Backend, Message, WireMessage, find_message, fetch}
use wire_server.Chat.Send.{Code, invalid_argument, internal, Result, failed, ok}

-- `maxHistoryLimit` is 50. The limit is an `int32`, here its 32 bits: from 2 ^ 31 on it is negative.
unfoldable pub clamp_limit : ℕ → ℕ
clamp_limit n =
    let limit = if nat_eq n 0 || leb 2147483648 n then 20 else n in
    if ltb 50 limit then 50 else limit

-- `m.created_at < cursor_msg.created_at`; against a missing row the comparison is not true.
abbrev pub before_row : Option Message → Message → Bool
before_row none m = false
before_row (some c) m = ltb m.created_at c.created_at

abbrev pub is_after : String → List Message → Message → Bool
is_after cursor stored m = (cursor == "") || before_row (find_message cursor stored) m

-- `ORDER BY m.created_at DESC, m.id DESC`
abbrev newer : Message → Message → Bool
newer m q =
    ltb q.created_at m.created_at || (nat_eq m.created_at q.created_at && text_leb q.id m.id)

unfoldable pub insert_newest : Message → List Message → List Message
insert_newest m [] = m ∷ []
insert_newest m (q ∷ qs) = if newer m q then m ∷ q ∷ qs else q ∷ insert_newest m qs

unfoldable pub newest_first : List Message → List Message
unfolding insert_newest
newest_first [] = []
newest_first (m ∷ ms) = insert_newest m (newest_first ms)

-- A conversation's rows, newest first.
unfoldable pub conversation_rows : String → List Message → List Message
unfolding newest_first select_rows
conversation_rows c stored = newest_first (select_rows (λ m. m.conversation_id == c) stored)

unfoldable pub get_message_history : String → String → ℕ → List Message → List Message
unfolding conversation_rows select_rows
get_message_history c cursor limit stored =
    take limit (select_rows (is_after cursor stored) (conversation_rows c stored))

abbrev recipients_of : Option String → List String
recipients_of none = []
recipients_of (some p) = if p == "" then [] else p ∷ []

abbrev pub to_wire : Message → WireMessage
to_wire m = record {
  message_id = m.id;
  sender_phone = m.sender_phone;
  recipient_phones = recipients_of m.recipient_phone;
  body = m.body_encrypted;
  status = "";
  created_at = m.server_ts;
}

abbrev id_of : Option Message → String
id_of none = ""
id_of (some m) = m.id

-- A full page names its last row.
unfoldable pub next_cursor : ℕ → List Message → String
next_cursor limit rows = if nat_eq (length rows) limit then id_of (last? rows) else ""

pub record GetHistoryRequest : Type 0 where
  pub conversation_id : String
  pub cursor : String
  pub limit : ℕ

pub record GetHistoryResponse : Type 0 where
  pub messages : List WireMessage
  pub next_cursor : String

abbrev answer : ℕ → Option (List Message) → Result GetHistoryResponse
answer limit none = failed internal
answer limit (some rows) =
    ok (record { messages = map to_wire rows; next_cursor = next_cursor limit rows })

unfoldable pub get_history : GetHistoryRequest → Backend → Result GetHistoryResponse × Backend
unfolding next_cursor
get_history req b =
    let limit = clamp_limit req.limit in
    let conversation_id = trim_space req.conversation_id in
    if conversation_id == ""
    then (failed invalid_argument, b)
    else (let (rows, b') =
          fetch
            (λ b.
              get_message_history conversation_id (trim_space req.cursor) limit b.replica_messages)
            b in
        (answer limit rows, b'))

-- A client that follows the cursors, from `cursor` on, for at most `fuel` pages.
unfoldable pub walk : ℕ → String → ℕ → String → Backend → List WireMessage
walk zero c limit cursor b = []
walk (suc fuel) c limit cursor b =
    let (answered, b') =
      get_history (record { conversation_id = c; cursor = cursor; limit = limit }) b in
    elim answered [
      | failed code ↦ []
      | ok page ↦
          let rest = walk fuel c limit page.next_cursor b' in
          page.messages ++ (if page.next_cursor == "" then [] else rest)
    ]
