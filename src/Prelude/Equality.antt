-- ===== src/Prelude/Equality.antt =====
-- Rust's `PartialEq` and `Eq`: a Boolean test that decides equality, as an instance argument.
use Prim.Native.Nat.{ℕ}
use Prim.Native.String.{String}
use mathlib.Core.Path.{◌≡◌, refl, ap}
use mathlib.Core.Logic.{◌↔◌}
use mathlib.Core.Bool.{Bool, true, false, ◌&&◌}
use mathlib.Core.List.{List, [], ◌∷◌}
use native.Mathlib.Omega.{arith}
use pi_musubi_core.Prelude.Int.{ℤ, pos, negsuc}
use mathlib.Core.Option.{Option, none, some}
use text.Mathlib.Text.{◌==◌ as str_beq}
use text.Mathlib.TextEquality.{eq_iff as string_decides}
use pi_musubi_core.Prelude.Tests.{nat_beq, nat_beq_iff}

-- A test that is true exactly on equal values.
abbrev pub Decides {ℓ} : {A : Type ℓ} → (A → A → Bool) → Type ℓ
Decides {A = A} test = (a b : A) → (test a b ≡ true) ↔ (a ≡ b)

pub record PartialEq {ℓ} (A : Type ℓ) : Type ℓ where
  pub eq : A → A → Bool
  pub decides : Decides eq

instance abbrev pub string_eq : PartialEq String
string_eq = record { eq = str_beq; decides = string_decides }

module _ {ℓ} {A : Type ℓ} ⦃impl : PartialEq A⦄ where
  infix 50 ◌==◌
  abbrev pub ◌==◌ : A → A → Bool
  a == b = impl.eq a b

  pub beq_refl : (a : A) → (a == a) ≡ true
  beq_refl a = (impl.decides a a).1 refl

  abbrev pub option_beq : Option A → Option A → Bool
  option_beq none none = true
  option_beq none (some b) = false
  option_beq (some a) none = false
  option_beq (some a) (some b) = a == b

  pub option_beq_iff : Decides option_beq
  option_beq_iff none none = ((λ _. refl), (λ _. refl))
  option_beq_iff none (some b) = ((λ h. cc), (λ h. cc))
  option_beq_iff (some a) none = ((λ h. cc), (λ h. cc))
  option_beq_iff (some a) (some b) =
      ((λ h. ap {B = Option A} some ((impl.decides a b).0 h)), (λ h. (impl.decides a b).1 (cc)))

instance abbrev pub nat_eq : PartialEq ℕ
nat_eq = record { eq = nat_beq; decides = nat_beq_iff }

instance abbrev pub option_eq {ℓ} : {A : Type ℓ} ⦃impl : PartialEq A⦄ → PartialEq (Option A)
option_eq ⦃impl⦄ = record { eq = option_beq; decides = option_beq_iff }

module _ {ℓ} {A : Type ℓ} ⦃impl : PartialEq A⦄ where
  abbrev pub list_beq : List A → List A → Bool
  list_beq [] [] = true
  list_beq [] (b ∷ t) = false
  list_beq (a ∷ s) [] = false
  list_beq (a ∷ s) (b ∷ t) = (a == b) && list_beq s t

  pub list_beq_iff : Decides list_beq
  list_beq_iff [] [] = ((λ _. refl), (λ _. refl))
  list_beq_iff [] (b ∷ t) = ((λ h. cc), (λ h. cc))
  list_beq_iff (a ∷ s) [] = ((λ h. cc), (λ h. cc))
  list_beq_iff (a ∷ s) (b ∷ t) = ground (arith, impl.decides a b, list_beq_iff s t)

instance abbrev pub list_eq {ℓ} : {A : Type ℓ} ⦃impl : PartialEq A⦄ → PartialEq (List A)
list_eq ⦃impl⦄ = record { eq = list_beq; decides = list_beq_iff }

module _ {ℓ κ} {A : Type ℓ} {B : Type κ} ⦃first : PartialEq A⦄ ⦃second : PartialEq B⦄ where
  abbrev pub pair_beq : A × B → A × B → Bool
  pair_beq a b = first.eq a.0 b.0 && second.eq a.1 b.1

  pub pair_beq_iff : Decides pair_beq
  pair_beq_iff (a, b) (c, d) = ground (arith, first.decides a c, second.decides b d)

instance abbrev pub pair_eq {ℓ κ} :
    {A : Type ℓ} {B : Type κ} ⦃first : PartialEq A⦄ ⦃second : PartialEq B⦄ → PartialEq (A × B)
pair_eq ⦃first⦄ ⦃second⦄ = record { eq = pair_beq; decides = pair_beq_iff }

abbrev pub int_beq : ℤ → ℤ → Bool
int_beq (pos a) (pos b) = nat_beq a b
int_beq (pos a) (negsuc b) = false
int_beq (negsuc a) (pos b) = false
int_beq (negsuc a) (negsuc b) = nat_beq a b

pub int_beq_iff : Decides int_beq
int_beq_iff (pos a) (pos b) = ground (arith, nat_beq_iff a b)
int_beq_iff (pos a) (negsuc b) = ((λ h. cc), (λ h. cc))
int_beq_iff (negsuc a) (pos b) = ((λ h. cc), (λ h. cc))
int_beq_iff (negsuc a) (negsuc b) = ground (arith, nat_beq_iff a b)

instance abbrev pub int_eq : PartialEq ℤ
int_eq = record { eq = int_beq; decides = int_beq_iff }
