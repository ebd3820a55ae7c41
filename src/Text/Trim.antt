-- ===== src/Text/Trim.antt =====
-- Laws of trimming.
use wire_server.Prelude.{ℕ, Bool, ◌≡◌, refl, inl, inr, ◌&&◌, String, code, ◌==◌, Bool-cases}
use wire_server.Text.{trim_left_by, trim_right_by, trim_space, is_space}

trim_right_by_idem :
    (p : ℕ → Bool) (s : String) → trim_right_by p (trim_right_by p s) ≡ trim_right_by p s
unfolding trim_right_by
trim_right_by_idem p String.[] = refl
trim_right_by_idem p (String.◌∷◌ c s) =
    elim (Bool-cases (p (code c) && (trim_right_by p s == ""))) [
      | inl blank ↦ rw blank
      | inr solid ↦ rw (solid, trim_right_by, trim_right_by_idem p s, solid)
    ]

-- What is left after trimming both ends begins with no trimmed character.
trim_left_by-fixed :
    (p : ℕ → Bool) (s : String)
    → trim_left_by p (trim_right_by p (trim_left_by p s)) ≡ trim_right_by p (trim_left_by p s)
unfolding trim_left_by trim_right_by
trim_left_by-fixed p String.[] = refl
trim_left_by-fixed p (String.◌∷◌ c s) = elim (Bool-cases (p (code c))) [
  | inl blank ↦ rw blank (trim_left_by-fixed p s)
  | inr solid ↦ rw (solid, trim_right_by, solid, trim_left_by, solid)
]

pub trim_space_idem : (s : String) → trim_space (trim_space s) ≡ trim_space s
unfolding trim_space
trim_space_idem s =
    rw (trim_left_by-fixed is_space s) (trim_right_by_idem is_space (trim_left_by is_space s))
