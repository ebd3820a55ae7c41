-- ===== src/Prelude/Lists.antt =====
-- Lists measured by native numbers, under the library's names, and predicates by recursion.
use Prim.Native.Nat.{ℕ, zero, suc, ◌+◌, ◌≤◌}
use Prim.Native.String.{String}
use mathlib.Core.Path.{◌≡◌, refl, ap}
use mathlib.Core.Bool.{Bool, false, ◌||◌}
use mathlib.Core.List.{List, [], ◌∷◌, ◌++◌}
use mathlib.Core.Option.{Option, none, some}
use text.Mathlib.Text.{◌==◌ as str_eq}
use native.Mathlib.Omega.{arith}
use wire_server.Prelude.Tests.{if◌then◌else◌}

module _ {ℓ} {A : Type ℓ} where
  abbrev pub length : List A → ℕ
  length [] = 0
  length (x ∷ xs) = suc (length xs)

  abbrev pub take : ℕ → List A → List A
  take zero xs = []
  take (suc n) [] = []
  take (suc n) (x ∷ xs) = x ∷ take n xs

  abbrev pub drop : ℕ → List A → List A
  drop zero xs = xs
  drop (suc n) [] = []
  drop (suc n) (x ∷ xs) = drop n xs

  abbrev pub last? : List A → Option A
  last? [] = none
  last? (x ∷ []) = some x
  last? (x ∷ y ∷ xs) = last? (y ∷ xs)

  abbrev pub head_or : A → List A → A
  head_or d [] = d
  head_or d (x ∷ xs) = x

  abbrev pub All {κ} : (A → Type κ) → List A → Type κ
  All P [] = Unit
  All P (x ∷ xs) = P x × All P xs

-- How many elements a test accepts.
abbrev pub count {ℓ} : {A : Type ℓ} → (A → Bool) → List A → ℕ
count f [] = 0
count f (x ∷ xs) = (if f x then 1 else 0) + count f xs

pub count-append {ℓ} :
    {A : Type ℓ} (f : A → Bool) (xs ys : List A) → count f (xs ++ ys) ≡ count f xs + count f ys
count-append f [] ys = omega arith
count-append f (x ∷ xs) ys = omega (arith, count-append f xs ys)

module _ {ℓ} {A : Type ℓ} where
  pub length-append : (xs ys : List A) → length (xs ++ ys) ≡ length xs + length ys
  length-append [] ys = omega arith
  length-append (x ∷ xs) ys = omega (arith, length-append xs ys)

  pub take-append-drop : (n : ℕ) (xs : List A) → take n xs ++ drop n xs ≡ xs
  take-append-drop zero xs = refl
  take-append-drop (suc n) [] = refl
  take-append-drop (suc n) (x ∷ xs) = ap (◌∷◌ x) (take-append-drop n xs)

  pub length-take-le : (n : ℕ) (xs : List A) → length (take n xs) ≤ n
  length-take-le zero xs = omega arith
  length-take-le (suc n) [] = omega arith
  length-take-le (suc n) (x ∷ xs) = omega (arith, length-take-le n xs)

  pub length-drop-add : (n : ℕ) (xs : List A) → length (take n xs) + length (drop n xs) ≡ length xs
  length-drop-add zero xs = omega arith
  length-drop-add (suc n) [] = omega arith
  length-drop-add (suc n) (x ∷ xs) = omega (arith, length-drop-add n xs)

-- Membership in a list of texts, as the `seen` sets and key lookups of the source test it.
abbrev pub elem : String → List String → Bool
elem s [] = false
elem s (x ∷ xs) = str_eq s x || elem s xs
