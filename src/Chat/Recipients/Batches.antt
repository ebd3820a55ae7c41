-- ===== src/Chat/Recipients/Batches.antt =====
-- Batching loses nobody, keeps the order, and respects the size.
use wire_server.Prelude.{
  false, ℕ, zero, suc, ◌≤◌, ◌<◌, String, List, [], ◌∷◌, ◌++◌, ◌≡◌, refl, ap, ◌∙◌, arith, length,
  take, drop, All, nat_eq, if◌then◌else◌, take-append-drop, length-take-le, length-drop-add,
}
use wire_server.Chat.Recipients.{batches_from, batch_recipients}

abbrev pub concat : List (List String) → List String
concat [] = []
concat (b ∷ bs) = b ++ concat bs

-- A batch holds between one recipient and `size`.
abbrev pub IsBatch : ℕ → List String → Type 0
IsBatch size b = (0 < length b) × (length b ≤ size)

concat-batches_from :
    (fuel size : ℕ) (rs : List String)
    → 0 < size
    → length rs ≤ fuel
    → concat (batches_from fuel size rs) ≡ rs
unfolding batches_from
concat-batches_from zero size [] pos h = refl
concat-batches_from (suc fuel) size [] pos h = refl
concat-batches_from zero size (r ∷ rs) pos h = absurd (omega arith)
concat-batches_from (suc fuel) zero (r ∷ rs) pos h = absurd (omega arith)
concat-batches_from (suc fuel) (suc size) (r ∷ rs) pos h =
    ap (λ l. (r ∷ take size rs) ++ l)
      (concat-batches_from fuel (suc size) (drop size rs) pos
        (omega (arith, length-drop-add size rs)))
    ∙ ap (◌∷◌ r) (take-append-drop size rs)

batches_from-IsBatch :
    (fuel size : ℕ) (rs : List String) → 0 < size → All (IsBatch size) (batches_from fuel size rs)
unfolding batches_from
batches_from-IsBatch fuel size [] pos = tt
batches_from-IsBatch zero size (r ∷ rs) pos = tt
batches_from-IsBatch (suc fuel) zero (r ∷ rs) pos = absurd (omega arith)
batches_from-IsBatch (suc fuel) (suc size) (r ∷ rs) pos = (
  (omega arith, omega (arith, length-take-le size rs)),
  batches_from-IsBatch fuel (suc size) (drop size rs) pos,
)

size_not_zero : (size : ℕ) → nat_eq (suc size) 0 ≡ false
size_not_zero size = ground arith

-- `batchRecipients` splits the recipients, in order and without loss, into batches that are not
-- empty and hold no more than `size` recipients, or no more than 64 where `size` is 0.
pub batch_recipients_lem :
    (rs : List String) (size : ℕ)
    → (concat (batch_recipients rs size) ≡ rs)
      × All (IsBatch (if nat_eq size 0 then 64 else size)) (batch_recipients rs size)
unfolding batch_recipients
batch_recipients_lem rs zero = (
  concat-batches_from (length rs) 64 rs (omega arith) (omega arith),
  batches_from-IsBatch (length rs) 64 rs (omega arith),
)
batch_recipients_lem rs (suc size) = rw (size_not_zero size) (
  concat-batches_from (length rs) (suc size) rs (omega arith) (omega arith),
  batches_from-IsBatch (length rs) (suc size) rs (omega arith),
)
