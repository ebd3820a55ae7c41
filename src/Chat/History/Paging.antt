-- ===== src/Chat/History/Paging.antt =====
-- Following the cursors of `GetHistory` yields the whole history.
use wire_server.Prelude.{ℕ, ◌≤◌, String, false, List, ◌++◌, ◌==◌, ◌≡◌, All, arith}
use wire_server.Text.{trim_space}
use wire_server.Storage.Statements.{select_rows}
use wire_server.Chat.Backend.{Backend, Message}
use wire_server.Chat.History.{clamp_limit, is_after, conversation_rows}
use wire_server.Chat.History.Pages.{Descending, IsKeyed}

-- The limit is between 1 and 50 whatever the client asks for.
pub clamp_limit_bounds : (n : ℕ) → (1 ≤ clamp_limit n) × (clamp_limit n ≤ 50)
unfolding clamp_limit
clamp_limit_bounds n = ground arith

-- A conversation that can be paged through.
pub record Pageable (c : String) (stored : List Message) : Type 0 where
  pub named : (c == "") ≡ false
  pub trimmed : trim_space c ≡ c
  pub descending : Descending (conversation_rows c stored)
  pub keyed : All (IsKeyed stored) (conversation_rows c stored)

-- What is left of a conversation behind a cursor.
record IsRest (c cursor : String) (stored post : List Message) : Type 0 where
  before : List Message
  split : conversation_rows c stored ≡ before ++ post
  selected : select_rows (is_after cursor stored) (conversation_rows c stored) ≡ post
  trimmed : trim_space cursor ≡ cursor
