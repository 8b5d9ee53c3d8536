-- ===== src/HashMap/Retain.antt =====
-- `HashMap::retain`, and sets as lists that `contains` reads.
use pi_musubi_core.Prelude.{
  ◌≡◌, refl, Bool, Option, none, some, [], ◌∷◌, arith, PartialEq, if◌then◌else◌, length, ◌≤◌, All,
  Bool-cases, inl, inr,
}
use pi_musubi_core.HashMap.{HashMap, get, Distinct}

abbrev pub keep_if : {V : Type 0} → (V → Bool) → Option V → Option V
keep_if p none = none
keep_if p (some v) = if p v then some v else none

module _ {K V : Type 0} ⦃e : PartialEq K⦄ where
  unfoldable pub retain : (K → V → Bool) → HashMap K V → HashMap K V
  retain p [] = []
  retain p ((k, v) ∷ m) = let rest = retain p m in if p k v then (k, v) ∷ rest else rest

  pub get-retain :
      (p : K → V → Bool) (j : K) (m : HashMap K V)
      → Distinct m
      → get j (retain p m) ≡ keep_if (p j) (get j m)
  unfolding get retain
  get-retain p j [] d = refl
  get-retain p j ((k, v) ∷ m) d = ground (arith, e.decides k j, get-retain p j m d.1)

  pub Distinct-retain : (p : K → V → Bool) (m : HashMap K V) → Distinct m → Distinct (retain p m)
  unfolding get retain
  Distinct-retain p [] d = d
  Distinct-retain p ((k, v) ∷ m) d = ground (arith, Distinct-retain p m d.1, get-retain p k m d.1)

  pub length-retain : (p : K → V → Bool) (m : HashMap K V) → length (retain p m) ≤ length m
  unfolding retain
  length-retain p [] = omega arith
  length-retain p ((k, v) ∷ m) = ground (arith, length-retain p m)

  pub All-retain {κ} :
      (P : K × V → Type κ) (p : K → V → Bool) (m : HashMap K V) → All P m → All P (retain p m)
  unfolding retain
  All-retain P p [] h = h
  All-retain P p ((k, v) ∷ m) h = elim (Bool-cases (p k v)) [
    | inl e ↦ rw (e, retain) (h.0, All-retain P p m h.1)
    | inr e ↦ rw (e, retain) (All-retain P p m h.1)
  ]
