-- ===== src/Proof/Sort/Passing.antt =====
-- How many elements of a list pass a test: the order of the list does not matter.
use pi_musubi_core.Prelude.{
  ℕ, ◌+◌, ◌≤◌, ◌≡◌, refl, ap, ◌∙◌, Bool, true, All, List, [], ◌∷◌, ◌++◌, arith, length, filter,
  filter-append, length-append,
}
use pi_musubi_core.Proof.Sort.{insert_by, sort_by}

module _ {A : Type 0} (p : A → Bool) where
  unfoldable pub passing : List A → ℕ
  passing xs = length (filter p xs)

  passing-insert_by :
      (before : A → A → Bool) (a : A) (xs : List A)
      → passing (insert_by before a xs) ≡ passing (a ∷ xs)
  unfolding passing insert_by
  passing-insert_by before a [] = refl
  passing-insert_by before a (x ∷ xs) = ground (arith, passing-insert_by before a xs)

  pub passing-sort_by :
      (before : A → A → Bool) (xs : List A) → passing (sort_by before xs) ≡ passing xs
  unfolding passing sort_by
  passing-sort_by before [] = refl
  passing-sort_by before (x ∷ xs) =
      ground (arith, passing-insert_by before x (sort_by before xs), passing-sort_by before xs)

  pub passing-append : (xs ys : List A) → passing (xs ++ ys) ≡ passing xs + passing ys
  unfolding passing
  passing-append xs ys =
      ap length (filter-append p xs ys) ∙ length-append (filter p xs) (filter p ys)

  pub passing_le : (xs : List A) → passing xs ≤ length xs
  unfolding passing
  passing_le [] = omega arith
  passing_le (x ∷ xs) = ground (arith, passing_le xs)

module _ {A : Type 0} (p q : A → Bool) where
  pub passing_mono :
      (xs : List A) → All (λ x. p x ≡ true → q x ≡ true) xs → passing p xs ≤ passing q xs
  unfolding passing
  passing_mono [] h = omega arith
  passing_mono (x ∷ xs) h = ground (arith, h.0, passing_mono xs h.1)

  -- A filter that keeps all that pass.
  pub passing-filter_all :
      (xs : List A) → All (λ x. p x ≡ true → q x ≡ true) xs → passing p (filter q xs) ≡ passing p xs
  unfolding passing
  passing-filter_all [] h = refl
  passing-filter_all (x ∷ xs) h = ground (arith, h.0, passing-filter_all xs h.1)
