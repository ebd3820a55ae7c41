-- ===== src/Text/Words.antt =====
-- `strings.Fields` and `strings.Split` at one character, on code points.
use wire_server.Prelude.{
  ℕ, String, Bool, true, false, not, List, [], ◌∷◌, ◌≡◌, refl, code, nat_eq, Char, if◌then◌else◌,
}
use text.Mathlib.TextLemmas.{cons-append, nil-append}
use wire_server.Text.{is_space, ◌<>◌}

abbrev pub begins_word : String → Bool
unfolding is_space
begins_word String.[] = false
begins_word (String.◌∷◌ c s) = not (is_space (code c))

-- The character before the first word of the list, or as a word of its own.
abbrev pub push_char : Char → List String → List String
push_char c [] = String.◌∷◌ c "" ∷ []
push_char c (w ∷ ws) = String.◌∷◌ c w ∷ ws

-- `strings.Fields`
unfoldable pub fields : String → List String
unfolding begins_word
fields String.[] = []
fields (String.◌∷◌ c s) =
    let rest = fields s in
    if is_space (code c)
    then rest
    else if begins_word s
    then push_char c rest
    else String.◌∷◌ c "" ∷ rest

-- `strings.Split` at the character of a code.
unfoldable pub split_at : ℕ → String → List String
split_at sep String.[] = "" ∷ []
split_at sep (String.◌∷◌ c s) =
    let rest = split_at sep s in if nat_eq (code c) sep then "" ∷ rest else push_char c rest

-- No white space.
abbrev pub solid : String → Bool
unfolding is_space
solid String.[] = true
solid (String.◌∷◌ c s) = if is_space (code c) then false else solid s

head_false : (b r : Bool) → (if b then false else r) ≡ true → b ≡ false
head_false true r h = absurd (cc h)
head_false false r h = refl

tail_true : (b r : Bool) → (if b then false else r) ≡ true → r ≡ true
tail_true true r h = absurd (cc h)
tail_true false r h = h

solid-head : (c : Char) (s : String) → solid (String.◌∷◌ c s) ≡ true → is_space (code c) ≡ false
unfolding is_space
solid-head c s h = head_false (is_space (code c)) (solid s) h

solid-tail : (c : Char) (s : String) → solid (String.◌∷◌ c s) ≡ true → solid s ≡ true
unfolding is_space
solid-tail c s h = tail_true (is_space (code c)) (solid s) h

-- A text without white space is one word.
pub fields-solid :
    (c : Char) (s : String)
    → solid (String.◌∷◌ c s) ≡ true
    → fields (String.◌∷◌ c s) ≡ String.◌∷◌ c s ∷ []
unfolding fields
fields-solid c String.[] h = rw (solid-head c "" h) refl
fields-solid c (String.◌∷◌ d s) h =
    let rest = solid-tail c (String.◌∷◌ d s) h in
    rw (fields-solid d s rest, solid-head c (String.◌∷◌ d s) h, solid-head d s rest) refl

-- A word, white space, and the words of the rest.
pub fields-append :
    (c : Char) (w : String) (blank : Char) (s : String)
    → solid (String.◌∷◌ c w) ≡ true
    → is_space (code blank) ≡ true
    → fields (String.◌∷◌ c w <> String.◌∷◌ blank s) ≡ String.◌∷◌ c w ∷ fields s
unfolding fields
fields-append c String.[] blank s h sp =
    rw
      (
        cons-append c "" (String.◌∷◌ blank s),
        nil-append (String.◌∷◌ blank s),
        solid-head c "" h,
        sp,
      )
      refl
fields-append c (String.◌∷◌ d w) blank s h sp =
    let rest = solid-tail c (String.◌∷◌ d w) h in
    rw
      (
        cons-append c (String.◌∷◌ d w) (String.◌∷◌ blank s),
        fields,
        fields-append d w blank s rest sp,
        solid-head c (String.◌∷◌ d w) h,
        cons-append d w (String.◌∷◌ blank s),
        solid-head d w rest,
      )
      refl
