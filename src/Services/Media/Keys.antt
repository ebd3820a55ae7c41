-- ===== src/Services/Media/Keys.antt =====
-- The key in a presigned URL against the key of the object: `escapeS3Key`.
use wire_server.Prelude.{
  ℕ, String, Bool, true, false, not, ◌&&◌, List, [], ◌∷◌, ◌≡◌, refl, ◌∙◌, ap, code, nat_eq, Char,
  map, All, Bool-cases, inl, inr,
}
use text.Mathlib.TextLemmas.{cons-append, nil-append}
use wire_server.Text.{◌<>◌}
use wire_server.Text.Words.{split_at, push_char}
use wire_server.Services.Media.{MediaLibrary, MediaService, join_with, escape_s3_key}

-- The text has no character of the code.
abbrev pub lacks : ℕ → String → Bool
lacks sep String.[] = true
lacks sep (String.◌∷◌ c s) = not (nat_eq (code c) sep) && lacks sep s

head_lacks : (b r : Bool) → (not b && r) ≡ true → b ≡ false
head_lacks true r h = absurd (cc h)
head_lacks false r h = refl

tail_lacks : (b r : Bool) → (not b && r) ≡ true → r ≡ true
tail_lacks true r h = absurd (cc h)
tail_lacks false r h = h

split_at-lacks : (sep : ℕ) (s : String) → lacks sep s ≡ true → split_at sep s ≡ s ∷ []
unfolding split_at
split_at-lacks sep String.[] h = refl
split_at-lacks sep (String.◌∷◌ c s) h =
    rw
      (
        head_lacks (nat_eq (code c) sep) (lacks sep s) h,
        split_at-lacks sep s (tail_lacks (nat_eq (code c) sep) (lacks sep s) h),
      )
      refl

split_at-append :
    (s t : String) → lacks 47 s ≡ true → split_at 47 (s <> ("/" <> t)) ≡ s ∷ split_at 47 t
unfolding split_at
split_at-append String.[] t h = rw (nil-append ("/" <> t), cons-append "/" "" t, nil-append t) refl
split_at-append (String.◌∷◌ c s) t h =
    rw
      (
        cons-append c s ("/" <> t),
        head_lacks (nat_eq (code c) 47) (lacks 47 s) h,
        split_at-append s t (tail_lacks (nat_eq (code c) 47) (lacks 47 s) h),
      )
      refl

-- Splitting undoes joining.
split_at-join_with :
    (p : String) (ps : List String)
    → lacks 47 p ≡ true
    → All (λ q. lacks 47 q ≡ true) ps
    → split_at 47 (join_with "/" (p ∷ ps)) ≡ p ∷ ps
unfolding join_with
split_at-join_with p [] h hs = split_at-lacks 47 p h
split_at-join_with p (q ∷ qs) h (h', hs) =
    split_at-append p (join_with "/" (q ∷ qs)) h ∙ ap (◌∷◌ p) (split_at-join_with q qs h' hs)

push-cons :
    (c : Char) (ws : List String)
    → (w : String) × (rest : List String) × (push_char c ws ≡ w ∷ rest)
push-cons c [] = (String.◌∷◌ c "", [], refl)
push-cons c (w ∷ ws) = (String.◌∷◌ c w, ws, refl)

split_at-cons :
    (sep : ℕ) (s : String) → (w : String) × (rest : List String) × (split_at sep s ≡ w ∷ rest)
unfolding split_at
split_at-cons sep String.[] = ("", [], refl)
split_at-cons sep (String.◌∷◌ c s) = elim (Bool-cases (nat_eq (code c) sep)) [
  | inl hit ↦ ("", split_at sep s, rw hit refl)
  | inr miss ↦ let (w, rest, e) = push-cons c (split_at sep s) in (w, rest, rw miss e)
]

push-lacks :
    (sep : ℕ) (c : Char) (ws : List String)
    → nat_eq (code c) sep ≡ false
    → All (λ q. lacks sep q ≡ true) ws
    → All (λ q. lacks sep q ≡ true) (push_char c ws)
push-lacks sep c [] miss h = (rw miss refl, tt)
push-lacks sep c (w ∷ ws) miss (h, hs) = (rw (miss, h) refl, hs)

-- No part has the separator.
split_at-parts : (sep : ℕ) (s : String) → All (λ q. lacks sep q ≡ true) (split_at sep s)
unfolding split_at
split_at-parts sep String.[] = (refl, tt)
split_at-parts sep (String.◌∷◌ c s) = elim (Bool-cases (nat_eq (code c) sep)) [
  | inl hit ↦ rw hit (refl, split_at-parts sep s)
  | inr miss ↦ rw miss (push-lacks sep c (split_at sep s) miss (split_at-parts sep s))
]

module _ (f g : String → String) (free : (p : String) → lacks 47 p ≡ true → lacks 47 (f p) ≡ true)
    (inverse : (p : String) → lacks 47 p ≡ true → g (f p) ≡ p) where
  map-lacks :
      (ps : List String) → All (λ q. lacks 47 q ≡ true) ps → All (λ q. lacks 47 q ≡ true) (map f ps)
  map-lacks [] h = tt
  map-lacks (p ∷ ps) (h, hs) = (free p h, map-lacks ps hs)

  map-inverse : (ps : List String) → All (λ q. lacks 47 q ≡ true) ps → map g (map f ps) ≡ ps
  map-inverse [] h = refl
  map-inverse (p ∷ ps) (h, hs) = rw (inverse p h, map-inverse ps hs) refl

  join_with-split :
      (ps : List String)
      → All (λ q. lacks 47 q ≡ true) ps
      → (w : String) × (rest : List String) × (ps ≡ w ∷ rest)
      → split_at 47 (join_with "/" (map f ps)) ≡ map f ps
  join_with-split [] h (w, rest, e) = absurd (cc e)
  join_with-split (p ∷ ps) (h, hs) some_part =
      split_at-join_with (f p) (map f ps) (free p h) (map-lacks ps hs)

-- When `url.PathEscape` gives no "/" for a text without one and has an inverse on such texts, the parts
-- of the escaped object key between the slashes, each unescaped, are the parts of the object key.
pub escape_s3_key-parts :
    (lib : MediaLibrary) (s : MediaService) (unescape : String → String)
    → ((p : String) → lacks 47 p ≡ true → lacks 47 (lib.path_escape p) ≡ true)
    → ((p : String) → lacks 47 p ≡ true → unescape (lib.path_escape p) ≡ p)
    → (key : String) → map unescape (split_at 47 (escape_s3_key lib s key)) ≡ split_at 47 key
unfolding escape_s3_key
escape_s3_key-parts lib s unescape free inverse key =
    let parts = split_at-parts 47 key in
    ap (map unescape) (
      join_with-split lib.path_escape unescape free inverse (split_at 47 key) parts
        (split_at-cons 47 key))
    ∙ map-inverse lib.path_escape unescape free inverse (split_at 47 key) parts
