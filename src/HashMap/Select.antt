-- ===== src/HashMap/Select.antt =====
-- The keys of the values that pass a test, and the map without them.
use pi_musubi_core.Prelude.{
  ◌≡◌, refl, Bool, false, Option, none, some, List, [], ◌∷◌, map, arith, PartialEq, ◌==◌,
  if◌then◌else◌, All, All-mono, filter, any,
}
use pi_musubi_core.HashMap.{HashMap, get, insert, remove, Distinct, values}
use pi_musubi_core.HashMap.Laws.{get-remove, Distinct-remove, entries-get}

abbrev pub elem : {K : Type 0} ⦃e : PartialEq K⦄ → K → List K → Bool
elem j = any (λ k. k == j)

abbrev pub passes : {V : Type 0} → (V → Bool) → Option V → Bool
passes p none = false
passes p (some v) = p v

abbrev pub keep_unless : {V : Type 0} → (V → Bool) → Option V → Option V
keep_unless p none = none
keep_unless p (some v) = if p v then none else some v

module _ {K V : Type 0} ⦃e : PartialEq K⦄ where
  unfoldable pub remove_all : List K → HashMap K V → HashMap K V
  remove_all [] m = m
  remove_all (k ∷ ks) m = remove_all ks (remove k m)

  pub remove_absent : (k : K) (m : HashMap K V) → get k m ≡ none → remove k m ≡ m
  unfolding get remove
  remove_absent k [] h = refl
  remove_absent k ((i, w) ∷ m) h = ground (arith, remove_absent k m)

  -- A write of the value that is there.
  pub insert-get_self : (k : K) (v : V) (m : HashMap K V) → get k m ≡ some v → insert k v m ≡ m
  unfolding get insert
  insert-get_self k v [] h = absurd (cc)
  insert-get_self k v ((i, w) ∷ m) h = ground (arith, insert-get_self k v m)

  pub Distinct-remove_all :
      (ks : List K) (m : HashMap K V) → Distinct m → Distinct (remove_all ks m)
  unfolding remove_all
  Distinct-remove_all [] m d = d
  Distinct-remove_all (k ∷ ks) m d = Distinct-remove_all ks (remove k m) (Distinct-remove k m d)

  pub get-remove_all :
      (j : K) (ks : List K) (m : HashMap K V)
      → Distinct m
      → get j (remove_all ks m) ≡ (if elem j ks then none else get j m)
  unfolding remove_all
  get-remove_all j [] m d = refl
  get-remove_all j (k ∷ ks) m d =
      ground (arith, get-remove_all j ks (remove k m) (Distinct-remove k m d), get-remove k j m d)

  module _ (f : V → K) (p : V → Bool) where
    elem-filter :
        (j : K) (m : HashMap K V)
        → Distinct m
        → All (λ x. f x.1 ≡ x.0) m
        → elem j (map f (filter p (values m))) ≡ passes p (get j m)
    unfolding get values
    elem-filter j [] d keyed = refl
    elem-filter j ((i, w) ∷ m) d keyed =
        ground (arith, elem-filter j m d.1 keyed.1, e.decides i j, e.decides (f w) j)

    -- To remove the keys of the values that pass is to keep the values that fail.
    pub get-remove_passing :
        (j : K) (m : HashMap K V)
        → Distinct m
        → ((k : K) (v : V) → get k m ≡ some v → f v ≡ k)
        → get j (remove_all (map f (filter p (values m))) m) ≡ keep_unless p (get j m)
    get-remove_passing j m d keyed = ground (
      arith,
      get-remove_all j (map f (filter p (values m))) m d,
      elem-filter j m d (
          All-mono (λ x. get x.0 m ≡ some x.1) (λ x. f x.1 ≡ x.0) m (λ x g. keyed x.0 x.1 g)
            (entries-get m d)),
    )
