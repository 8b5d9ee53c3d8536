-- ===== src/HashMap/Count.antt =====
-- How many values of a map pass a test, as `values().filter(p).count()` has it.
use pi_musubi_core.Prelude.{
  ℕ, suc, ◌<◌, ◌≡◌, refl, Bool, true, false, some, List, [], ◌∷◌, arith, PartialEq, beq_refl,
  length, filter, All,
}
use pi_musubi_core.HashMap.{HashMap, Distinct, get, insert, values}
use pi_musubi_core.HashMap.Laws.{values-All}

module _ {K V : Type 0} ⦃e : PartialEq K⦄ where
  -- Of two writes under a key the later one stays.
  pub insert-insert : (k : K) (v w : V) (m : HashMap K V) → insert k w (insert k v m) ≡ insert k w m
  unfolding insert
  insert-insert k v w [] = ground (arith, beq_refl k)
  insert-insert k v w ((i, u) ∷ m) = ground (arith, e.decides i k, insert-insert k v w m)

  unfoldable pub count : (V → Bool) → HashMap K V → ℕ
  unfolding values
  count p m = length (filter p (values m))

  -- A write over a value that passes, of one that fails, takes one away.
  pub count-insert :
      (p : V → Bool) (k : K) (v w : V) (m : HashMap K V)
      → get k m ≡ some v
      → p v ≡ true
      → p w ≡ false
      → suc (count p (insert k w m)) ≡ count p m
  unfolding get insert values count
  count-insert p k v w [] g h n = absurd (cc)
  count-insert p k v w ((i, u) ∷ m) g h n = ground (arith, count-insert p k v w m)

  pub count_pos :
      (p : V → Bool) (k : K) (v : V) (m : HashMap K V)
      → get k m ≡ some v
      → p v ≡ true
      → 0 < count p m
  unfolding get values count
  count_pos p k v [] g h = absurd (cc)
  count_pos p k v ((i, u) ∷ m) g h = ground (arith, count_pos p k v m)

  pub count_zero :
      (p : V → Bool) (m : HashMap K V)
      → Distinct m
      → ((k : K) (v : V) → get k m ≡ some v → p v ≡ false)
      → count p m ≡ 0
  unfolding count
  count_zero p m d none_passes = none_of (values m) (values-All _ m d none_passes)
    where
      none_of : (xs : List V) → All (λ x. p x ≡ false) xs → length (filter p xs) ≡ 0
      none_of [] h = refl
      none_of (x ∷ xs) h = ground (arith, none_of xs h.1, h.0)
