-- ===== src/Settlement/Capabilities/Canonical.antt =====
-- apps/backend/crates/settlement-domain/src/descriptor.rs: the capabilities are a set.
use pi_musubi_core.Prelude.{
  ℕ, ◌≡◌, subst, ◌<◌, ◌≤◌, refl, ap, sym, ◌∙◌, true, false, ◌||◌, List, [], ◌∷◌, arith,
}
use pi_musubi_core.Settlement.Capabilities.{
  SettlementCapability, capability_index, capability_beq, contains, insert_sorted, sort_unstable,
  dedup_after, dedup, new_capabilities, capabilities_support,
}

contains-insert_sorted :
    (c d : SettlementCapability) (xs : List SettlementCapability)
    → contains (insert_sorted c xs) d ≡ (capability_beq c d || contains xs d)
unfolding insert_sorted
contains-insert_sorted c d [] = refl
contains-insert_sorted c d (x ∷ xs) = ground (arith, contains-insert_sorted c d xs)

contains-sort_unstable :
    (d : SettlementCapability) (xs : List SettlementCapability)
    → contains (sort_unstable xs) d ≡ contains xs d
unfolding sort_unstable
contains-sort_unstable d [] = refl
contains-sort_unstable d (x ∷ xs) =
    contains-insert_sorted x d (sort_unstable xs)
    ∙ ap (λ r. capability_beq x d || r) (contains-sort_unstable d xs)

contains-dedup_after :
    (x d : SettlementCapability) (xs : List SettlementCapability)
    → (capability_beq x d || contains (dedup_after x xs) d) ≡ (capability_beq x d || contains xs d)
unfolding dedup_after
contains-dedup_after x d [] = refl
contains-dedup_after x d (y ∷ ys) =
    ground (arith, contains-dedup_after x d ys, contains-dedup_after y d ys)

contains-dedup :
    (d : SettlementCapability) (xs : List SettlementCapability)
    → contains (dedup xs) d ≡ contains xs d
unfolding dedup
contains-dedup d [] = refl
contains-dedup d (x ∷ xs) = contains-dedup_after x d xs

-- A backend made with a list of capabilities supports exactly those of the list.
pub new_capabilities_support :
    (cs : List SettlementCapability) (c : SettlementCapability)
    → capabilities_support (new_capabilities cs) c ≡ contains cs c
unfolding new_capabilities
new_capabilities_support cs c = contains-dedup c (sort_unstable cs) ∙ contains-sort_unstable c cs

-- Every element is after `n`, and each before the next.
IsAfter : ℕ → List SettlementCapability → Type 0
IsAfter n [] = Unit
IsAfter n (x ∷ xs) = (n < capability_index x) × IsAfter (capability_index x) xs

-- The same, with repetitions.
IsFrom : ℕ → List SettlementCapability → Type 0
IsFrom n [] = Unit
IsFrom n (x ∷ xs) = (n ≤ capability_index x) × IsFrom (capability_index x) xs

index_inj : (a b : SettlementCapability) → capability_index a ≡ capability_index b → a ≡ b
unfolding capability_index
index_inj a b h = ground arith

IsFrom-insert_sorted :
    (n : ℕ) (c : SettlementCapability) (xs : List SettlementCapability)
    → n ≤ capability_index c
    → IsFrom n xs
    → IsFrom n (insert_sorted c xs)
unfolding insert_sorted IsFrom
IsFrom-insert_sorted n c [] h v = (h, tt)
IsFrom-insert_sorted n c (x ∷ xs) h v =
    ground (arith, IsFrom-insert_sorted (capability_index x) c xs)

IsFrom-sort_unstable : (xs : List SettlementCapability) → IsFrom 0 (sort_unstable xs)
unfolding sort_unstable IsFrom
IsFrom-sort_unstable [] = tt
IsFrom-sort_unstable (x ∷ xs) =
    IsFrom-insert_sorted 0 x (sort_unstable xs) (omega arith) (IsFrom-sort_unstable xs)

IsAfter-dedup_after :
    (x : SettlementCapability) (xs : List SettlementCapability)
    → IsFrom (capability_index x) xs
    → IsAfter (capability_index x) (dedup_after x xs)
unfolding dedup_after IsFrom IsAfter
IsAfter-dedup_after x [] v = tt
IsAfter-dedup_after x (y ∷ ys) v =
    ground (arith, IsAfter-dedup_after x ys, IsAfter-dedup_after y ys)

-- Strictly ascending.
IsStrict : List SettlementCapability → Type 0
IsStrict [] = Unit
IsStrict (x ∷ xs) = IsAfter (capability_index x) xs

dedup-IsStrict : (xs : List SettlementCapability) → IsFrom 0 xs → IsStrict (dedup xs)
unfolding dedup IsFrom IsStrict
dedup-IsStrict [] v = tt
dedup-IsStrict (x ∷ xs) v = IsAfter-dedup_after x xs v.1

not_after :
    (n : ℕ) (d : SettlementCapability) (xs : List SettlementCapability)
    → IsAfter n xs
    → capability_index d ≤ n
    → contains xs d ≡ false
unfolding IsAfter
not_after n d [] v h = refl
not_after n d (x ∷ xs) v h = ground (arith, not_after (capability_index x) d xs)

-- Two lists support the same capabilities.
abbrev pub SameSupport : List SettlementCapability → List SettlementCapability → Type 0
SameSupport xs ys = (c : SettlementCapability) → contains xs c ≡ contains ys c

first_contained :
    (x : SettlementCapability) (xs : List SettlementCapability) → contains (x ∷ xs) x ≡ true
first_contained x xs = ground arith

same_first :
    (x y : SettlementCapability) (xs ys : List SettlementCapability)
    → IsAfter (capability_index x) xs
    → IsAfter (capability_index y) ys
    → contains (x ∷ xs) y ≡ true
    → contains (y ∷ ys) x ≡ true
    → capability_index x ≡ capability_index y
same_first x y xs ys v w h k =
    ground (arith, not_after (capability_index x) y xs v, not_after (capability_index y) x ys w)

same_rest :
    (x : SettlementCapability) (xs ys : List SettlementCapability)
    → IsAfter (capability_index x) xs
    → IsAfter (capability_index x) ys
    → SameSupport (x ∷ xs) (x ∷ ys)
    → SameSupport xs ys
same_rest x xs ys v w same c =
    ground
      (arith, same c, not_after (capability_index x) c xs v, not_after (capability_index x) c ys w)

after-IsStrict : (n : ℕ) (xs : List SettlementCapability) → IsAfter n xs → IsStrict xs
unfolding IsAfter IsStrict
after-IsStrict n [] v = tt
after-IsStrict n (x ∷ xs) v = v.1

strict_unique :
    (xs ys : List SettlementCapability) → IsStrict xs → IsStrict ys → SameSupport xs ys → xs ≡ ys
unfolding IsStrict
strict_unique [] [] v w same = refl
strict_unique [] (y ∷ ys) v w same = absurd (ground (arith, same y, first_contained y ys))
strict_unique (x ∷ xs) [] v w same = absurd (ground (arith, same x, first_contained x xs))
strict_unique (x ∷ xs) (y ∷ ys) v w same =
    let e : x ≡ y = index_inj x y (
      same_first x y xs ys v w (same y ∙ first_contained y ys)
        (sym (same x) ∙ first_contained x xs)) in
    let w' : IsAfter (capability_index x) ys = rw e w in
    let same' : SameSupport (x ∷ xs) (x ∷ ys) =
      subst (λ z. SameSupport (x ∷ xs) (z ∷ ys)) (sym e) same in
    let r : xs ≡ ys =
      strict_unique xs ys (after-IsStrict (capability_index x) xs v)
        (after-IsStrict (capability_index x) ys w') (same_rest x xs ys v w' same') in
    cc

normal-IsStrict : (cs : List SettlementCapability) → IsStrict (dedup (sort_unstable cs))
normal-IsStrict cs = dedup-IsStrict (sort_unstable cs) (IsFrom-sort_unstable cs)

-- Two lists with the same members, in whatever order and however often, make equal capabilities.
pub new_capabilities_canonical :
    (cs ds : List SettlementCapability)
    → SameSupport cs ds
    → new_capabilities cs ≡ new_capabilities ds
unfolding new_capabilities
new_capabilities_canonical cs ds same =
    let e : dedup (sort_unstable cs) ≡ dedup (sort_unstable ds) =
      strict_unique (dedup (sort_unstable cs)) (dedup (sort_unstable ds)) (normal-IsStrict cs)
        (normal-IsStrict ds)
        λ c. new_capabilities_support cs c ∙ same c ∙ sym (new_capabilities_support ds c) in
    cc
