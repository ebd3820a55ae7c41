-- ===== src/Auth/Bearer.antt =====
-- `BearerToken` of pkg/middleware/middleware.go, and `bearerToken` of internal/auth/middleware.go,
-- which is the same.
use wire_server.Prelude.{
  String, true, false, List, [], ◌∷◌, ◌≡◌, refl, sym, ◌∙◌, ◌==◌, eq_iff, Bool-cases, inl, inr, code,
  Char, if◌then◌else◌,
}
use text.Mathlib.TextLemmas.{cons-append, cons≢nil}
use wire_server.Text.{◌<>◌, is_space, equal_fold}
use wire_server.Text.Words.{fields, solid, fields-solid, fields-append}

abbrev pub second_word : List String → String
second_word [] = ""
second_word (a ∷ []) = ""
second_word (a ∷ b ∷ []) = if equal_fold a "Bearer" then b else ""
second_word (a ∷ b ∷ c ∷ rest) = ""

unfoldable pub bearer_token : String → String
bearer_token header = if header == "" then "" else second_word (fields header)

not-empty : (c : Char) (s t : String) → ((String.◌∷◌ c s <> t) == "") ≡ false
not-empty c s t = elim (Bool-cases ((String.◌∷◌ c s <> t) == "")) [
  | inl blank ↦
      absurd (cons≢nil (sym (cons-append c s t) ∙ (eq_iff (String.◌∷◌ c s <> t) "").0 blank))
  | inr set ↦ set
]

-- A header that is the word "Bearer", in whatever case, one character of white space and a token
-- that is not empty and has no white space reads as that token.
pub bearer_token-append :
    (b : Char) (w : String) (blank : Char) (c : Char) (t : String)
    → solid (String.◌∷◌ b w) ≡ true
    → equal_fold (String.◌∷◌ b w) "Bearer" ≡ true
    → is_space (code blank) ≡ true
    → solid (String.◌∷◌ c t) ≡ true
    → bearer_token (String.◌∷◌ b w <> String.◌∷◌ blank (String.◌∷◌ c t)) ≡ String.◌∷◌ c t
unfolding bearer_token
bearer_token-append b w blank c t hw bearer sp ht =
    rw
      (
        not-empty b w (String.◌∷◌ blank (String.◌∷◌ c t)),
        fields-append b w blank (String.◌∷◌ c t) hw sp,
        fields-solid c t ht,
        bearer,
      )
      refl
