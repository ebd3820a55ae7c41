-- ===== src/Chat/Recipients.antt =====
-- `dedupeRecipients`, `buildConversationID` and `batchRecipients` of
-- services/chat-service/cmd/server.go.
pub mod Dedupe
pub mod Batches
pub mod Conversation
use wire_server.Prelude.{
  ℕ, zero, suc, String, Bool, ◌||◌, not, List, [], ◌∷◌, ◌++◌, ◌==◌, elem, length, take, drop,
  nat_eq, head_or, if◌then◌else◌, Option,
}
use wire_server.Text.{trim_space, ◌<>◌, text_leb}

-- The loop of `dedupeRecipients`; `seen` holds what `out` holds.
unfoldable pub dedupe_onto : String → List String → List String → List String
unfolding trim_space
dedupe_onto sender out [] = out
dedupe_onto sender out (raw ∷ ids) =
    let id = trim_space raw in
    dedupe_onto sender (if (id == "") || (id == sender) || elem id out then out else out ++ id ∷ [])
      ids

unfoldable pub dedupe_recipients : List String → String → List String
unfolding dedupe_onto
dedupe_recipients ids sender = dedupe_onto sender [] ids

-- `sort.Strings` on two texts.
unfoldable pub sorted_pair : String → String → String × String
unfolding text_leb
sorted_pair a b = if text_leb a b then (a, b) else (b, a)

unfoldable pub direct_id : String → String → String
unfolding sorted_pair
direct_id a b = let (x, y) = sorted_pair a b in "dm:" <> (x <> (":" <> y))

abbrev no_group : String → List String → String
no_group sender [] = "dm:" <> sender
no_group sender (r ∷ rs) = direct_id sender r

unfoldable pub build_conversation_id : String → List String → String → String
unfolding direct_id
build_conversation_id sender recipients group =
    if not (group == "") then "group:" <> group else no_group sender recipients

-- The loop of `batchRecipients`. Each round takes `size` recipients or what is left, so as many
-- rounds as recipients are enough.
unfoldable pub batches_from : ℕ → ℕ → List String → List (List String)
batches_from fuel size [] = []
batches_from zero size (r ∷ rs) = []
batches_from (suc fuel) size (r ∷ rs) =
    take size (r ∷ rs) ∷ batches_from fuel size (drop size (r ∷ rs))

-- A size of 0 stands for 64.
unfoldable pub batch_recipients : List String → ℕ → List (List String)
unfolding batches_from
batch_recipients recipients size =
    batches_from (length recipients) (if nat_eq size 0 then 64 else size) recipients
