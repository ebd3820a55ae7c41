-- ===== src/Text/Order.antt =====
-- The order of texts is total and antisymmetric.
use text.Mathlib.TextEquality.{Char-path}
use wire_server.Prelude.{String, true, ◌≡◌, refl, ap₂, ◌||◌, arith}
use wire_server.Text.{text_leb}

pub text_leb_total : (a b : String) → (text_leb a b || text_leb b a) ≡ true
unfolding text_leb
text_leb_total String.[] b = refl
text_leb_total (String.◌∷◌ c s) String.[] = refl
text_leb_total (String.◌∷◌ c s) (String.◌∷◌ d t) = ground (arith, text_leb_total s t)

pub text_leb_antisymm : (a b : String) → text_leb a b ≡ true → text_leb b a ≡ true → a ≡ b
unfolding text_leb
text_leb_antisymm String.[] String.[] h k = refl
text_leb_antisymm String.[] (String.◌∷◌ d t) h k = absurd (ground arith)
text_leb_antisymm (String.◌∷◌ c s) String.[] h k = absurd (ground arith)
text_leb_antisymm (String.◌∷◌ c s) (String.◌∷◌ d t) h k =
    ap₂ String.◌∷◌ (Char-path c d (ground arith))
      (text_leb_antisymm s t (ground arith) (ground arith))
