-- ===== src/Text.antt =====
-- The functions of Go's `strings` package that the server calls, on texts as sequences of code
-- points.
pub mod Trim
pub mod Words
pub mod Order
use Prim.Native.String.{◌++◌ as append}
use wire_server.Prelude.{
  ℕ, zero, suc, Bool, true, false, ltb, ◌&&◌, ◌||◌, ◌+◌, ◌/◌, ◌%◌, String, List, [], ◌∷◌, code,
  nat_eq, leb, ◌==◌, if◌then◌else◌,
}

-- `unicode.IsSpace`.
unfoldable pub is_space : ℕ → Bool
is_space c =
    (leb 9 c && leb c 13)
    || nat_eq c 32
    || nat_eq c 0x85
    || nat_eq c 0xA0
    || nat_eq c 0x1680
    || (leb 0x2000 c && leb c 0x200a)
    || nat_eq c 0x2028
    || nat_eq c 0x2029
    || nat_eq c 0x202f
    || nat_eq c 0x205f
    || nat_eq c 0x3000

-- A test on the first character of a text's rest.
unfoldable pub trim_left_by : (ℕ → Bool) → String → String
trim_left_by p String.[] = ""
trim_left_by p (String.◌∷◌ c s) = if p (code c) then trim_left_by p s else String.◌∷◌ c s

-- Drops the longest run of matching characters at the end.
unfoldable pub trim_right_by : (ℕ → Bool) → String → String
trim_right_by p String.[] = ""
trim_right_by p (String.◌∷◌ c s) =
    let rest = trim_right_by p s in if p (code c) && (rest == "") then "" else String.◌∷◌ c rest

-- `strings.TrimSpace`.
unfoldable pub trim_space : String → String
unfolding trim_left_by trim_right_by is_space
trim_space s = trim_right_by is_space (trim_left_by is_space s)

infixr 65 ◌<>◌
abbrev pub ◌<>◌ : String → String → String
s <> t = append s t

-- The digits of `%d` and of `hex.EncodeToString`.
abbrev digit_texts : List String
digit_texts =
    "0" ∷ "1" ∷ "2" ∷ "3" ∷ "4" ∷ "5" ∷ "6" ∷ "7" ∷ "8" ∷ "9" ∷ "a" ∷ "b" ∷ "c" ∷ "d" ∷ "e" ∷ "f"
    ∷ []

nth_text : ℕ → List String → String
nth_text n [] = ""
nth_text zero (t ∷ ts) = t
nth_text (suc n) (t ∷ ts) = nth_text n ts

-- The digits of `n` before `tail`. A number has at most as many digits as it counts, so fuel `n + 1`
-- is enough.
decimal_from : ℕ → ℕ → String → String
unfolding nth_text
decimal_from zero n tail = tail
decimal_from (suc fuel) n tail =
    let out = nth_text (n % 10) digit_texts <> tail in
    let rest = decimal_from fuel (n / 10) out in if leb n 9 then out else rest

-- `%d` of a number that is not negative.
unfoldable pub decimal : ℕ → String
unfolding decimal_from nth_text
decimal n = decimal_from (n + 1) n ""

-- `hex.EncodeToString`
unfoldable pub hex_encode : List ℕ → String
unfolding nth_text
hex_encode [] = ""
hex_encode (b ∷ bs) =
    nth_text (b / 16) digit_texts <> (nth_text (b % 16) digit_texts <> hex_encode bs)

-- `a <= b` for texts, as Go compares them.
unfoldable pub text_leb : String → String → Bool
text_leb String.[] t = true
text_leb (String.◌∷◌ c s) String.[] = false
text_leb (String.◌∷◌ c s) (String.◌∷◌ d t) =
    ltb (code c) (code d) || (nat_eq (code c) (code d) && text_leb s t)

abbrev fold_code : ℕ → ℕ
fold_code c = if leb 65 c && leb c 90 then c + 32 else c

-- `strings.EqualFold`. The letters of the texts it is used with fold to ASCII letters only.
unfoldable pub equal_fold : String → String → Bool
equal_fold String.[] String.[] = true
equal_fold String.[] (String.◌∷◌ d t) = false
equal_fold (String.◌∷◌ c s) String.[] = false
equal_fold (String.◌∷◌ c s) (String.◌∷◌ d t) =
    nat_eq (fold_code (code c)) (fold_code (code d)) && equal_fold s t
