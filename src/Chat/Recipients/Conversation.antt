-- ===== src/Chat/Recipients/Conversation.antt =====
-- A direct conversation has one id, whoever writes first.
use wire_server.Prelude.{String, ap₂, sym, ◌≡◌, refl, ◌∷◌, [], arith, inl, inr, Bool-cases}
use wire_server.Text.{text_leb}
use wire_server.Text.Order.{text_leb_total, text_leb_antisymm}
use wire_server.Chat.Recipients.{sorted_pair, direct_id, build_conversation_id}

sorted_pair_comm : (a b : String) → sorted_pair a b ≡ sorted_pair b a
unfolding sorted_pair
sorted_pair_comm a b = elim (Bool-cases (text_leb a b)) [
  | inl ab ↦ elim (Bool-cases (text_leb b a)) [
    | inl ba ↦ ap₂ sorted_pair (text_leb_antisymm a b ab ba) (sym (text_leb_antisymm a b ab ba))
    | inr ba ↦ rw (ab, ba) refl
  ]
  | inr ab ↦ elim (Bool-cases (text_leb b a)) [
    | inl ba ↦ rw (ab, ba) refl
    | inr ba ↦ absurd (ground (arith, text_leb_total a b))
  ]
]

-- Whichever of the two writes first, a direct message lands in the same conversation.
pub build_conversation_id_comm :
    (a b : String) → build_conversation_id a (b ∷ []) "" ≡ build_conversation_id b (a ∷ []) ""
unfolding build_conversation_id direct_id
build_conversation_id_comm a b = rw (sorted_pair_comm a b)
