-- ===== src/Orchestration/Json/Sorted.antt =====
-- The entries of a JSON object in the order of their keys: `entries.sort_by(…)`.
use pi_musubi_core.Prelude.{
  String, ◌≡◌, ◌≢◌, Bool, true, false, List, [], ◌∷◌, if◌then◌else◌, arith, Bool-cases, inl, inr,
}
use pi_musubi_core.Prelude.Text.{codes}
use pi_musubi_core.Orchestration.Json.Order.{lex_lt, lex_lt_asym, lex_lt_total, lex_le_lt}

module _ {A : Type 0} where
  abbrev pub entry_lt : String × A → String × A → Bool
  entry_lt a b = lex_lt (codes a.0) (codes b.0)

  -- A stable sort: an entry goes before those that do not precede it.
  unfoldable pub insert_entry : String × A → List (String × A) → List (String × A)
  insert_entry a [] = a ∷ []
  insert_entry a (x ∷ xs) =
      let rest = insert_entry a xs in if entry_lt x a then x ∷ rest else a ∷ x ∷ xs

  unfoldable pub sort_entries : List (String × A) → List (String × A)
  unfolding insert_entry
  sort_entries [] = []
  sort_entries (x ∷ xs) = insert_entry x (sort_entries xs)

  -- One of two entries precedes the other.
  abbrev pub Apart : String × A → String × A → Type 0
  Apart a b = codes a.0 ≢ codes b.0

  precedes : (a b : String × A) → Apart a b → entry_lt a b ≡ false → entry_lt b a ≡ true
  precedes a b n h = elim (Bool-cases (entry_lt b a)) [
    | inl e ↦ e
    | inr e ↦ absurd (n (lex_lt_total (codes a.0) (codes b.0) h e))
  ]

  pub insert_entry_comm :
      (a b : String × A) (xs : List (String × A))
      → Apart a b
      → insert_entry a (insert_entry b xs) ≡ insert_entry b (insert_entry a xs)
  unfolding insert_entry
  insert_entry_comm a b [] n = ground (arith, precedes a b n, lex_lt_asym (codes a.0) (codes b.0))
  insert_entry_comm a b (x ∷ xs) n = ground (
    arith,
    insert_entry_comm a b xs n,
    precedes a b n,
    lex_lt_asym (codes a.0) (codes b.0),
    lex_le_lt (codes b.0) (codes x.0) (codes a.0),
    lex_le_lt (codes a.0) (codes x.0) (codes b.0),
  )
