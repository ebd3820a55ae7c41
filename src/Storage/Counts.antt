-- ===== src/Storage/Counts.antt =====
-- How a deletion, an update and an insertion change the number of rows that a clause chooses.
use wire_server.Prelude.{
  ℕ, ◌+◌, ◌≤◌, ◌<◌, Bool, true, false, none, some, List, [], ◌∷◌, ◌++◌, ◌≡◌, refl, sym, inl, inr,
  arith, Bool-cases, if◌then◌else◌,
}
use mathlib.Core.Path.{subst}
use wire_server.Storage.Statements.{
  count_rows, exists_row, delete_rows, update_rows, first_row, insert_by, order_by,
}

module _ {ℓ} {A : Type ℓ} (f : A → Bool) where
  pub count_rows-append :
      (xs ys : List A) → count_rows f (xs ++ ys) ≡ count_rows f xs + count_rows f ys
  unfolding count_rows
  count_rows-append [] ys = omega arith
  count_rows-append (x ∷ xs) ys = omega (arith, count_rows-append xs ys)

  pub count_rows-pos : (xs : List A) → exists_row f xs ≡ true → 0 < count_rows f xs
  unfolding count_rows exists_row
  count_rows-pos [] h = ground arith
  count_rows-pos (x ∷ xs) h = ground (arith, count_rows-pos xs)

  pub count_rows-zero : (xs : List A) → exists_row f xs ≡ false → count_rows f xs ≡ 0
  unfolding count_rows exists_row
  count_rows-zero [] h = refl
  count_rows-zero (x ∷ xs) h = ground (arith, count_rows-zero xs)

  pub exists_row_of_pos : (xs : List A) → 0 < count_rows f xs → exists_row f xs ≡ true
  unfolding count_rows exists_row
  exists_row_of_pos [] h = ground arith
  exists_row_of_pos (x ∷ xs) h = ground (arith, exists_row_of_pos xs)

module _ {ℓ} {A : Type ℓ} (f : A → Bool) where
  pub count_rows-delete_rows_self : (xs : List A) → count_rows f (delete_rows f xs) ≡ 0
  unfolding count_rows delete_rows
  count_rows-delete_rows_self [] = refl
  count_rows-delete_rows_self (x ∷ xs) = ground (arith, count_rows-delete_rows_self xs)

module _ {ℓ} {A : Type ℓ} (f g : A → Bool) where
  -- A deletion takes away no more rows than it chooses.
  pub count_rows-le-delete_rows :
      (xs : List A) → count_rows f xs ≤ count_rows f (delete_rows g xs) + count_rows g xs
  unfolding count_rows delete_rows
  count_rows-le-delete_rows [] = omega arith
  count_rows-le-delete_rows (x ∷ xs) = ground (arith, count_rows-le-delete_rows xs)

  pub count_rows-delete_rows-le : (xs : List A) → count_rows f (delete_rows g xs) ≤ count_rows f xs
  unfolding count_rows delete_rows
  count_rows-delete_rows-le [] = omega arith
  count_rows-delete_rows-le (x ∷ xs) = ground (arith, count_rows-delete_rows-le xs)

  -- A clause that no deleted row meets chooses the same rows afterwards.
  pub count_rows-delete_rows_ne :
      ((x : A) → g x ≡ true → f x ≡ false)
      → (xs : List A) → count_rows f (delete_rows g xs) ≡ count_rows f xs
  unfolding count_rows delete_rows
  count_rows-delete_rows_ne apart [] = refl
  count_rows-delete_rows_ne apart (x ∷ xs) =
      ground (arith, apart x, count_rows-delete_rows_ne apart xs)

  -- A clause that implies another chooses no more rows.
  pub count_rows_mono :
      ((x : A) → f x ≡ true → g x ≡ true) → (xs : List A) → count_rows f xs ≤ count_rows g xs
  unfolding count_rows
  count_rows_mono sub [] = omega arith
  count_rows_mono sub (x ∷ xs) = ground (arith, sub x, count_rows_mono sub xs)

module _ {ℓ} {A : Type ℓ} (f g : A → Bool) (u : A → A) where
  -- An update that keeps every row of the clause in the clause loses none.
  pub count_rows-le-update_rows :
      ((x : A) → f x ≡ true → f (u x) ≡ true)
      → (xs : List A) → count_rows f xs ≤ count_rows f (update_rows g u xs)
  unfolding count_rows update_rows
  count_rows-le-update_rows keep [] = omega arith
  count_rows-le-update_rows keep (x ∷ xs) =
      ground (arith, keep x, count_rows-le-update_rows keep xs)

  -- An update changes the count by no more than the rows that it touches.
  pub count_rows-le-update_rows_add :
      (xs : List A) → count_rows f xs ≤ count_rows f (update_rows g u xs) + count_rows g xs
  unfolding count_rows update_rows
  count_rows-le-update_rows_add [] = omega arith
  count_rows-le-update_rows_add (x ∷ xs) = ground (arith, count_rows-le-update_rows_add xs)

  -- An update that does not change what the clause reads leaves the count alone.
  pub count_rows-update_rows :
      ((x : A) → g x ≡ true → f (u x) ≡ f x)
      → (xs : List A) → count_rows f (update_rows g u xs) ≡ count_rows f xs
  unfolding count_rows update_rows
  count_rows-update_rows same [] = refl
  count_rows-update_rows same (x ∷ xs) = ground (arith, same x, count_rows-update_rows same xs)

  -- Where the update puts its rows into the clause, the clause chooses at least those.
  pub count_rows-update_rows-ge :
      ((x : A) → g x ≡ true → f (u x) ≡ true)
      → (xs : List A) → count_rows g xs ≤ count_rows f (update_rows g u xs)
  unfolding count_rows update_rows
  count_rows-update_rows-ge into [] = omega arith
  count_rows-update_rows-ge into (x ∷ xs) =
      ground (arith, into x, count_rows-update_rows-ge into xs)

-- A deletion takes away no more rows than those of both clauses.
pub count_rows-le-delete_rows_both {ℓ} :
    {A : Type ℓ} (f g k : A → Bool)
    → ((x : A) → f x ≡ true → g x ≡ true → k x ≡ true)
    → (xs : List A) → count_rows f xs ≤ count_rows f (delete_rows g xs) + count_rows k xs
unfolding count_rows delete_rows
count_rows-le-delete_rows_both f g k both [] = omega arith
count_rows-le-delete_rows_both f g k both (x ∷ xs) =
    ground (arith, both x, count_rows-le-delete_rows_both f g k both xs)

-- What survives a deletion meets a clause that holds wherever the deletion does not.
pub count_rows-delete_rows-le_of {ℓ} :
    {A : Type ℓ} (f g k : A → Bool)
    → ((x : A) → f x ≡ true → g x ≡ false → k x ≡ true)
    → (xs : List A) → count_rows f (delete_rows g xs) ≤ count_rows k xs
unfolding count_rows delete_rows
count_rows-delete_rows-le_of f g k sub [] = omega arith
count_rows-delete_rows-le_of f g k sub (x ∷ xs) =
    ground (arith, sub x, count_rows-delete_rows-le_of f g k sub xs)

-- Sorting changes no count.
module _ {ℓ} {A : Type ℓ} (time : A → ℕ) (f : A → Bool) where
  count_rows-insert_by :
      (r : A) (qs : List A)
      → count_rows f (insert_by time r qs) ≡ (if f r then 1 else 0) + count_rows f qs
  unfolding count_rows insert_by
  count_rows-insert_by r [] = refl
  count_rows-insert_by r (q ∷ qs) = ground (arith, count_rows-insert_by r qs)

  pub count_rows-order_by : (rs : List A) → count_rows f (order_by time rs) ≡ count_rows f rs
  unfolding count_rows order_by
  count_rows-order_by [] = refl
  count_rows-order_by (r ∷ rs) =
      omega (arith, count_rows-insert_by r (order_by time rs), count_rows-order_by rs)

module _ {ℓ} {A : Type ℓ} (f : A → Bool) where
  pub first_row-none : (rs : List A) → first_row f rs ≡ none → count_rows f rs ≡ 0
  unfolding first_row count_rows
  first_row-none [] h = refl
  first_row-none (r ∷ rs) h = ground (arith, first_row-none rs)

  -- The row that is found meets the clause, and is counted by every clause that it meets.
  pub first_row-some :
      (rs : List A) {r : A}
      → first_row f rs ≡ some r
      → (f r ≡ true) × ((k : A → Bool) → k r ≡ true → 0 < count_rows k rs)
  unfolding first_row count_rows
  first_row-some [] h = ground arith
  first_row-some (q ∷ rs) {r} h = elim (Bool-cases (f q)) [
    | inl hit ↦
        let e : q ≡ r = ground arith in
        (ground arith, λ k kr. ground (arith, subst (λ x. k x ≡ true) (sym e) kr))
    | inr miss ↦
        let (a, b) = first_row-some rs {r = r} (ground arith) in (a, λ k kr. omega (arith, b k kr))
  ]
