-- ===== src/Settlement/Money.antt =====
-- apps/backend/crates/settlement-domain/src/money.rs: `Money`. An `i128` is an integer that is
-- tested against its bounds.
pub mod Arithmetic
use pi_musubi_core.Prelude.{
  ℕ, ◌-◌, ◌^◌, ◌≡◌, Bool, true, false, not, ◌&&◌, List, Option, none, some, Result, ok, err, ok_or,
  ◌==◌, PartialEq, nat_eq, if◌then◌else◌,
}
use pi_musubi_core.Prelude.Int.{ℤ, pos, negsuc, ◌+ℤ◌, ◌-ℤ◌, leb_ℤ, ltb_ℤ, ◌≤ℤ◌}
use pi_musubi_core.Settlement.Currency.{CurrencyCode}

pub record Money : Type 0 where
  pub currency : CurrencyCode
  pub minor_units : ℤ
  pub scale : ℕ

pub data MoneyError : Type 0 where
  currency_mismatch : CurrencyCode → CurrencyCode → MoneyError
  scale_mismatch : ℕ → ℕ → MoneyError
  overflow : MoneyError

pub data Ordering : Type 0 where
  less equal greater : Ordering

-- `==` of two currencies.
abbrev pub points_beq : List ℕ → List ℕ → Bool
points_beq List.[] List.[] = true
points_beq (List.◌∷◌ c s) (List.◌∷◌ d t) = c == d && points_beq s t
points_beq _ _ = false

abbrev pub currency_beq : CurrencyCode → CurrencyCode → Bool
currency_beq a b = points_beq a.code_points b.code_points

abbrev pub i128_max : ℤ
i128_max = pos (2 ^ 127 - 1)

abbrev pub i128_min : ℤ
i128_min = negsuc (2 ^ 127 - 1)

-- The result of a checked operation of an `i128`.
abbrev pub checked : ℤ → Option ℤ
checked a = if leb_ℤ i128_min a && leb_ℤ a i128_max then some a else none

unfoldable pub ensure_compatible : Money → Money → Result MoneyError (Unit {0})
ensure_compatible a b =
    if not (currency_beq a.currency b.currency)
    then err (currency_mismatch a.currency b.currency)
    else if not (a.scale == b.scale)
    then err (scale_mismatch a.scale b.scale)
    else ok tt

-- `?` and the result of an operation on the units.
abbrev pub and_then :
    {A B : Type 0} → Result MoneyError A → (A → Result MoneyError B) → Result MoneyError B
and_then (ok a) f = f a
and_then (err e) f = err e

abbrev pub with_units : Money → ℤ → Money
with_units a units = record { currency = a.currency; minor_units = units; scale = a.scale }

unfoldable pub checked_add : Money → Money → Result MoneyError Money
unfolding ensure_compatible ◌+ℤ◌
checked_add a b = and_then (ensure_compatible a b) λ _.
    and_then (ok_or (checked (a.minor_units +ℤ b.minor_units)) overflow)
      λ units. ok (with_units a units)

unfoldable pub checked_sub : Money → Money → Result MoneyError Money
unfolding ensure_compatible ◌-ℤ◌
checked_sub a b = and_then (ensure_compatible a b) λ _.
    and_then (ok_or (checked (a.minor_units -ℤ b.minor_units)) overflow)
      λ units. ok (with_units a units)

abbrev pub cmp : ℤ → ℤ → Ordering
cmp a b = if ltb_ℤ a b then less else if ltb_ℤ b a then greater else equal

unfoldable pub checked_cmp : Money → Money → Result MoneyError Ordering
unfolding ensure_compatible
checked_cmp a b = and_then (ensure_compatible a b) λ _. ok (cmp a.minor_units b.minor_units)
