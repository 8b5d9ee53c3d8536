-- ===== src/Proof/Sort.antt =====
-- `sort_by` with an order that is tested by a function: a stable sort by insertion.
pub mod Passing
use pi_musubi_core.Prelude.{
  suc, ◌≡◌, refl, ap, ◌∙◌, Bool, ◌&&◌, ◌||◌, List, [], ◌∷◌, arith, if◌then◌else◌, length, All, ltb,
  nat_beq, Bool-cases, inl, inr,
}
use pi_musubi_core.Orchestration.Json.Order.{lex_lt}
use pi_musubi_core.Proof.State.{Str, Instant}

-- By time, and by identifier at one time.
abbrev pub earlier : Str × Instant → Str × Instant → Bool
earlier a b = ltb a.1 b.1 || (nat_beq a.1 b.1 && lex_lt a.0 b.0)

module _ {ℓ} {A : Type ℓ} (before : A → A → Bool) where
  unfoldable pub insert_by : A → List A → List A
  insert_by a [] = a ∷ []
  insert_by a (x ∷ xs) = let rest = insert_by a xs in if before x a then x ∷ rest else a ∷ x ∷ xs

  unfoldable pub sort_by : List A → List A
  unfolding insert_by
  sort_by [] = []
  sort_by (x ∷ xs) = insert_by x (sort_by xs)

  All-insert_by {κ} :
      (P : A → Type κ) (a : A) (xs : List A) → P a → All P xs → All P (insert_by a xs)
  unfolding insert_by
  All-insert_by P a [] h hs = (h, tt)
  All-insert_by P a (x ∷ xs) h hs = elim (Bool-cases (before x a)) [
    | inl e ↦ rw (e, insert_by) (hs.0, All-insert_by P a xs h hs.1)
    | inr e ↦ rw (e, insert_by) (h, hs)
  ]

  pub All-sort_by {κ} : (P : A → Type κ) (xs : List A) → All P xs → All P (sort_by xs)
  unfolding sort_by
  All-sort_by P [] h = h
  All-sort_by P (x ∷ xs) h = All-insert_by P x (sort_by xs) h.0 (All-sort_by P xs h.1)

  All_of_insert_by {κ} :
      (P : A → Type κ) (a : A) (xs : List A) → All P (insert_by a xs) → P a × All P xs
  unfolding insert_by
  All_of_insert_by P a [] h = h
  All_of_insert_by P a (x ∷ xs) h = elim (Bool-cases (before x a)) [
    | inl e ↦
        let k = rw (e, insert_by) at h in
        let (at_a, rest) = All_of_insert_by P a xs k.1 in (at_a, (k.0, rest))
    | inr e ↦ rw (e, insert_by) at h
  ]

  -- What holds of all that is sorted held of all before.
  pub All_of_sort_by {κ} : (P : A → Type κ) (xs : List A) → All P (sort_by xs) → All P xs
  unfolding sort_by
  All_of_sort_by P [] h = h
  All_of_sort_by P (x ∷ xs) h =
      let (at_x, rest) = All_of_insert_by P x (sort_by xs) h in (at_x, All_of_sort_by P xs rest)

  length-insert_by : (a : A) (xs : List A) → length (insert_by a xs) ≡ suc (length xs)
  unfolding insert_by
  length-insert_by a [] = refl
  length-insert_by a (x ∷ xs) = ground (arith, length-insert_by a xs)

  pub length-sort_by : (xs : List A) → length (sort_by xs) ≡ length xs
  unfolding sort_by
  length-sort_by [] = refl
  length-sort_by (x ∷ xs) = length-insert_by x (sort_by xs) ∙ ap suc (length-sort_by xs)
