-- ===== src/Chat/Recipients/Dedupe.antt =====
-- What `dedupeRecipients` lets through.
use wire_server.Prelude.{
  String, Bool, true, false, ◌||◌, not, List, [], ◌∷◌, ◌++◌, ◌≡◌, refl, inl, inr, ◌==◌, eq_iff,
  elem, arith, Bool-cases, text_cases, ◌&&◌,
}
use wire_server.Text.{trim_space}
use wire_server.Chat.Recipients.{dedupe_onto, dedupe_recipients}

-- No text twice.
abbrev pub Distinct : List String → Type 0
Distinct [] = Unit
Distinct (x ∷ xs) = (elem x xs ≡ false) × Distinct xs

elem-append : (s : String) (xs ys : List String) → elem s (xs ++ ys) ≡ (elem s xs || elem s ys)
elem-append s [] ys = refl
elem-append s (x ∷ xs) ys = ground (arith, elem-append s xs ys)

Distinct-append_one :
    (xs : List String) (s : String) → Distinct xs → elem s xs ≡ false → Distinct (xs ++ s ∷ [])
Distinct-append_one [] s d h = (refl, tt)
Distinct-append_one (x ∷ xs) s d h = (
  ground (arith, elem-append x xs (s ∷ []), eq_iff x s, eq_iff s x, d.0),
  Distinct-append_one xs s d.1 (ground arith),
)

dedupe_onto-Distinct :
    (sender : String) (out ids : List String) → Distinct out → Distinct (dedupe_onto sender out ids)
unfolding dedupe_onto
dedupe_onto-Distinct sender out [] d = d
dedupe_onto-Distinct sender out (raw ∷ ids) d =
    elim (Bool-cases
      ((trim_space raw == "") || (trim_space raw == sender) || elem (trim_space raw) out)) [
        | inl skipped ↦ rw skipped (dedupe_onto-Distinct sender out ids d)
        | inr kept ↦ rw kept (
            dedupe_onto-Distinct sender (out ++ trim_space raw ∷ []) ids
              (Distinct-append_one out (trim_space raw) d (ground arith)))
      ]

-- Trimmed, as they are named in the request.
abbrev pub named : String → List String → Bool
named s [] = false
named s (raw ∷ ids) = (s == trim_space raw) || named s ids

same_skipped :
    (blank own seen rest same : Bool)
    → (blank || own || seen) ≡ true
    → same ≡ true
    → (seen || (rest && not blank && not own)) ≡ (seen || ((same || rest) && not blank && not own))
same_skipped blank own seen rest same h e = ground arith

same_kept :
    (blank own seen rest same : Bool)
    → (blank || own || seen) ≡ false
    → same ≡ true
    → ((seen || (same || false)) || (rest && not blank && not own))
      ≡ (seen || ((same || rest) && not blank && not own))
same_kept blank own seen rest same h e = ground arith

skipped_head :
    (sender s id : String) (out : List String) (rest : Bool)
    → ((id == "") || (id == sender) || elem id out) ≡ true
    → (elem s out || (rest && not (s == "") && not (s == sender)))
      ≡ (elem s out || (((s == id) || rest) && not (s == "") && not (s == sender)))
skipped_head sender s id out rest h = elim (text_cases s id) [
  | inl same ↦
      same_skipped (s == "") (s == sender) (elem s out) rest (s == id) (rw same h)
        ((eq_iff s id).1 same)
  | inr (_, differ) ↦ rw differ refl
]

or_false : (b : Bool) → (b || false) ≡ b
or_false true = refl
or_false false = refl

kept_head :
    (sender s id : String) (out : List String) (rest : Bool)
    → ((id == "") || (id == sender) || elem id out) ≡ false
    → ((elem s out || ((s == id) || false)) || (rest && not (s == "") && not (s == sender)))
      ≡ (elem s out || (((s == id) || rest) && not (s == "") && not (s == sender)))
kept_head sender s id out rest h = elim (text_cases s id) [
  | inl same ↦
      same_kept (s == "") (s == sender) (elem s out) rest (s == id) (rw same h)
        ((eq_iff s id).1 same)
  | inr (_, differ) ↦ rw (differ, or_false (elem s out)) refl
]

elem-dedupe_onto :
    (sender s : String) (out ids : List String)
    → elem s (dedupe_onto sender out ids)
      ≡ (elem s out || (named s ids && not (s == "") && not (s == sender)))
unfolding dedupe_onto
elem-dedupe_onto sender s out [] = ground arith
elem-dedupe_onto sender s out (raw ∷ ids) =
    elim (Bool-cases
      ((trim_space raw == "") || (trim_space raw == sender) || elem (trim_space raw) out)) [
        | inl skipped ↦
            rw (skipped, elem-dedupe_onto sender s out ids)
              (skipped_head sender s (trim_space raw) out (named s ids) skipped)
        | inr kept ↦
            rw
              (
                kept,
                elem-dedupe_onto sender s (out ++ trim_space raw ∷ []) ids,
                elem-append s out (trim_space raw ∷ []),
              )
              (kept_head sender s (trim_space raw) out (named s ids) kept)
      ]

-- `dedupeRecipients` names nobody twice, and names exactly those whose trimmed phone the request
-- names, save the empty text and the sender.
pub dedupe_recipients_lem :
    (ids : List String) (sender : String)
    → Distinct (dedupe_recipients ids sender)
      × ((s : String)
          → elem s (dedupe_recipients ids sender)
            ≡ (named s ids && not (s == "") && not (s == sender)))
unfolding dedupe_recipients
dedupe_recipients_lem ids sender =
    (dedupe_onto-Distinct sender [] ids tt, λ s. elem-dedupe_onto sender s [] ids)
