-- ===== src/Settlement/Money/Arithmetic.antt =====
-- apps/backend/crates/settlement-domain/src/money.rs: the laws of the checked operations.
use pi_musubi_core.Prelude.{
  ℕ, ◌≡◌, subst, ◌≢◌, ◌↔◌, refl, ap, sym, ◌∙◌, true, List, [], ◌∷◌, ok, err, nat_eq, arith,
}
use pi_musubi_core.Prelude.Int.{ℤ, pos, ◌+ℤ◌, ◌-ℤ◌, ◌≤ℤ◌, +ℤ_parts, -ℤ_parts, eq_of_parts}
use pi_musubi_core.Settlement.Money.{
  Money, MoneyError, currency_mismatch, scale_mismatch, overflow, points_beq, i128_min, i128_max,
  ensure_compatible, with_units, checked_add, checked_sub, checked_cmp, cmp,
}

points_beq_iff : (s t : List ℕ) → (points_beq s t ≡ true) ↔ (s ≡ t)
points_beq_iff [] [] = ground arith
points_beq_iff [] (d ∷ t) = ground arith
points_beq_iff (c ∷ s) [] = ground arith
points_beq_iff (c ∷ s) (d ∷ t) = ground (arith, points_beq_iff s t)

-- Two amounts of the same currency and scale.
abbrev pub IsCompatible : Money → Money → Type 0
IsCompatible a b = (a.currency ≡ b.currency) × (a.scale ≡ b.scale)

-- An amount whose units are an `i128`.
abbrev pub IsMoney : Money → Type 0
IsMoney a = (i128_min ≤ℤ a.minor_units) × (a.minor_units ≤ℤ i128_max)

compatible : (a b : Money) → (ensure_compatible a b ≡ ok tt) ↔ IsCompatible a b
unfolding ensure_compatible
compatible a b = ground (arith, points_beq_iff a.currency.code_points b.currency.code_points)

add_ok :
    (a b c : Money)
    → checked_add a b ≡ ok c
    → IsCompatible a b × IsMoney c × (c ≡ with_units a (a.minor_units +ℤ b.minor_units))
unfolding checked_add
add_ok a b c h = ground (arith, compatible a b)

sub_ok :
    (a b c : Money)
    → checked_sub a b ≡ ok c
    → IsCompatible a b × IsMoney c × (c ≡ with_units a (a.minor_units -ℤ b.minor_units))
unfolding checked_sub
sub_ok a b c h = ground (arith, compatible a b)

add_in :
    (a b : Money)
    → IsCompatible a b
    → IsMoney (with_units a (a.minor_units +ℤ b.minor_units))
    → checked_add a b ≡ ok (with_units a (a.minor_units +ℤ b.minor_units))
unfolding checked_add
add_in a b h k = ground (arith, compatible a b)

sub_in :
    (a b : Money)
    → IsCompatible a b
    → IsMoney (with_units a (a.minor_units -ℤ b.minor_units))
    → checked_sub a b ≡ ok (with_units a (a.minor_units -ℤ b.minor_units))
unfolding checked_sub
sub_in a b h k = ground (arith, compatible a b)

add_sub : (x y : ℤ) → (x +ℤ y) -ℤ y ≡ x
add_sub x y = eq_of_parts ((x +ℤ y) -ℤ y) x (omega (arith, +ℤ_parts x y, -ℤ_parts (x +ℤ y) y))

sub_add : (x y : ℤ) → (x -ℤ y) +ℤ y ≡ x
sub_add x y = eq_of_parts ((x -ℤ y) +ℤ y) x (omega (arith, -ℤ_parts x y, +ℤ_parts (x -ℤ y) y))

add_comm : (x y : ℤ) → x +ℤ y ≡ y +ℤ x
add_comm x y = eq_of_parts (x +ℤ y) (y +ℤ x) (omega (arith, +ℤ_parts x y, +ℤ_parts y x))

-- What was added can be subtracted again: for an amount `a` in the range of an `i128`, if the sum
-- of `a` and `b` is an amount `c`, the difference of `c` and `b` is `a`.
pub add_then_sub : (a b c : Money) → IsMoney a → checked_add a b ≡ ok c → checked_sub c b ≡ ok a
add_then_sub a b c v h =
    let (k, r, e) = add_ok a b c h in
    let back : with_units c (c.minor_units -ℤ b.minor_units) ≡ a =
      rw (e, add_sub a.minor_units b.minor_units) refl in
    sub_in c b (rw e k) (subst IsMoney (sym back) v) ∙ ap ok back

-- What was subtracted can be added again: for an amount `a` in the range of an `i128`, if the
-- difference of `a` and `b` is an amount `c`, the sum of `c` and `b` is `a`.
pub sub_then_add : (a b c : Money) → IsMoney a → checked_sub a b ≡ ok c → checked_add c b ≡ ok a
sub_then_add a b c v h =
    let (k, r, e) = sub_ok a b c h in
    let back : with_units c (c.minor_units +ℤ b.minor_units) ≡ a =
      rw (e, sub_add a.minor_units b.minor_units) refl in
    add_in c b (rw e k) (subst IsMoney (sym back) v) ∙ ap ok back

-- Where two amounts have a sum, it is the sum in the other order too, and its units are in the
-- range of an `i128`.
pub checked_add_comm :
    (a b c : Money) → checked_add a b ≡ ok c → (checked_add b a ≡ ok c) × IsMoney c
checked_add_comm a b c h =
    let (k, r, e) = add_ok a b c h in
    let same : with_units b (b.minor_units +ℤ a.minor_units) ≡ c =
      rw (e, add_comm b.minor_units a.minor_units, k.0, k.1) refl in
    (add_in b a (sym k.0, sym k.1) (subst IsMoney (sym same) r) ∙ ap ok same, r)

cmp_sub : (x y : ℤ) → cmp (x -ℤ y) (pos 0) ≡ cmp x y
cmp_sub x y = ground (arith, -ℤ_parts x y)

cmp_in : (a b : Money) → IsCompatible a b → checked_cmp a b ≡ ok (cmp a.minor_units b.minor_units)
unfolding checked_cmp
cmp_in a b h = ground (arith, compatible a b)

-- A comparison agrees with the sign of the difference, where there is one.
pub checked_cmp_sign :
    (a b c : Money) → checked_sub a b ≡ ok c → checked_cmp a b ≡ ok (cmp c.minor_units (pos 0))
checked_cmp_sign a b c h =
    let (k, r, e) = sub_ok a b c h in
    cmp_in a b k
    ∙ ap ok
        (sym (cmp_sub a.minor_units b.minor_units) ∙ ap (λ m. cmp m.minor_units (pos 0)) (sym e))

-- What an error of an operation with the exact result `units` says of its amounts.
abbrev pub Fault : Money → Money → ℤ → MoneyError → Type 0
Fault a b units (currency_mismatch left right) =
    (a.currency ≡ left) × (b.currency ≡ right) × (left ≢ right)
Fault a b units (scale_mismatch left right) =
    (a.currency ≡ b.currency) × (a.scale ≡ left) × (b.scale ≡ right) × (left ≢ right)
Fault a b units overflow = IsCompatible a b × ¬ IsMoney (with_units a units)

ensure_error :
    (a b : Money) (units : ℤ) (e : MoneyError) → ensure_compatible a b ≡ err e → Fault a b units e
unfolding ensure_compatible
ensure_error a b units e h =
    ground (arith, points_beq_iff a.currency.code_points b.currency.code_points)

-- A sum fails for two currencies, for one currency in two scales, or else because the exact sum is
-- out of the range of an `i128`, and its error says which.
pub checked_add_error :
    (a b : Money) (e : MoneyError)
    → checked_add a b ≡ err e
    → Fault a b (a.minor_units +ℤ b.minor_units) e
unfolding checked_add
checked_add_error a b e h =
    ground (arith, compatible a b, ensure_error a b (a.minor_units +ℤ b.minor_units) e)
