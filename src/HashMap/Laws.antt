-- ===== src/HashMap/Laws.antt =====
-- The laws of a map. They hold of any order of the entries.
use pi_musubi_core.Prelude.{
  ◌≡◌, refl, inl, inr, Bool, false, none, some, [], ◌∷◌, map, arith, PartialEq, ◌==◌, beq_refl,
  if◌then◌else◌, Bool-cases, All, All-mono, any,
}
use mathlib.Core.Path.{subst}
use pi_musubi_core.HashMap.{HashMap, get, insert, remove, Distinct, values}

module _ {K V : Type 0} ⦃e : PartialEq K⦄ where
  pub get-insert :
      (k j : K) (v : V) (m : HashMap K V)
      → get j (insert k v m) ≡ (if k == j then some v else get j m)
  unfolding get insert
  get-insert k j v [] = refl
  get-insert k j v ((i, w) ∷ m) =
      ground (arith, e.decides k j, e.decides i k, e.decides i j, get-insert k j v m)

  pub get-insert_self : (k : K) (v : V) (m : HashMap K V) → get k (insert k v m) ≡ some v
  get-insert_self k v m = ground (arith, get-insert k k v m, beq_refl k)

  pub Distinct-insert : (k : K) (v : V) (m : HashMap K V) → Distinct m → Distinct (insert k v m)
  unfolding get insert
  Distinct-insert k v [] d = (refl, tt)
  Distinct-insert k v ((i, w) ∷ m) d =
      ground (arith, Distinct-insert k v m d.1, get-insert k i v m, e.decides k i, e.decides i k)

  pub get-remove :
      (k j : K) (m : HashMap K V)
      → Distinct m
      → get j (remove k m) ≡ (if k == j then none else get j m)
  unfolding get remove
  get-remove k j [] d = ground arith
  get-remove k j ((i, w) ∷ m) d =
      ground (arith, e.decides k j, e.decides i k, e.decides i j, get-remove k j m d.1)

  pub Distinct-remove : (k : K) (m : HashMap K V) → Distinct m → Distinct (remove k m)
  unfolding get remove
  Distinct-remove k [] d = d
  Distinct-remove k ((i, w) ∷ m) d =
      ground (arith, Distinct-remove k m d.1, get-remove k i m d.1, e.decides k i, e.decides i k)

  -- An iteration meets each entry under its own key.
  pub entries-get : (m : HashMap K V) → Distinct m → All (λ x. get x.0 m ≡ some x.1) m
  unfolding get
  entries-get [] d = tt
  entries-get ((k, v) ∷ m) d =
      (ground (arith, beq_refl k), All-mono _ _ m (λ x h. later x h) (entries-get m d.1))
    where
      later : (x : K × V) → get x.0 m ≡ some x.1 → get x.0 ((k, v) ∷ m) ≡ some x.1
      later x h = ground (arith, e.decides k x.0)

  -- What an iteration meets, in terms of look-ups.
  pub values-All {κ} :
      (P : V → Type κ) (m : HashMap K V)
      → Distinct m
      → ((k : K) (v : V) → get k m ≡ some v → P v)
      → All P (values m)
  unfolding values
  values-All P m d h =
      All-values m (All-mono _ (λ x. P x.1) m (λ x g. h x.0 x.1 g) (entries-get m d))
    where
      All-values : (l : HashMap K V) → All (λ x. P x.1) l → All P (map (λ x. x.1) l)
      All-values [] a = tt
      All-values (x ∷ l) a = (a.0, All-values l a.1)

  -- A test that no value passes fails at each key.
  pub any-values-false :
      (p : V → Bool) (k : K) (m : HashMap K V) {v : V}
      → any p (values m) ≡ false
      → get k m ≡ some v
      → p v ≡ false
  unfolding get values
  any-values-false p k [] h g = cc
  any-values-false p k ((i, w) ∷ m) {v} h g = ground (arith, any-values-false p k m {v = v})

  -- An iteration meets the value at every key.
  pub get-All {κ} :
      (P : V → Type κ) (k : K) (m : HashMap K V) {v : V} → All P (values m) → get k m ≡ some v → P v
  unfolding get values
  get-All P k [] h g = absurd (cc)
  get-All P k ((i, w) ∷ m) {v} h g = elim (Bool-cases (i == k)) [
    | inl here ↦ subst P {x = w} {y = v} (ground arith) h.0
    | inr there ↦ get-All P k m h.1 (ground arith)
  ]
