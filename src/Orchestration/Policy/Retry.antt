-- ===== src/Orchestration/Policy/Retry.antt =====
-- apps/backend/crates/orchestration/src/policy.rs: the delay before the next attempt.
use pi_musubi_core.Prelude.{ℕ, ◌+◌, ◌-◌, ◌*◌, ◌%◌, ◌^◌, ◌≤◌, ◌<◌, ◌≡◌, ◌≢◌, ap, arith}
use Prim.Native.Nat.{min}
use native.Mathlib.Nat.{mod-lt, pow-le-pow_right, mul-le-mul_left}
use pi_musubi_core.Prelude.Int.{pos, pos_part, ◌+ℤ◌, ◌*ℤ◌, ◌≤ℤ◌, min_ℤ, max_ℤ}
use pi_musubi_core.Orchestration.Model.{Uuid}
use pi_musubi_core.Orchestration.Policy.{retry_seconds, jitter_seconds, exponent, saturate, as_i64}

saturate_pos : (n : ℕ) → saturate (pos n) ≡ pos (min n (2 ^ 63 - 1))
saturate_pos n = ground arith

min_ℤ_pos : (a b : ℕ) → min_ℤ (pos a) (pos b) ≡ pos (min a b)
min_ℤ_pos a b = ground arith

max_ℤ_zero : (a : ℕ) → max_ℤ (pos a) (pos 0) ≡ pos a
max_ℤ_zero a = ground arith

+ℤ_pos : (a b : ℕ) → pos a +ℤ pos b ≡ pos (a + b)
unfolding ◌+ℤ◌
+ℤ_pos a b = ground arith

*ℤ_pos : (a b : ℕ) → pos a *ℤ pos b ≡ pos (a * b)
unfolding ◌*ℤ◌
*ℤ_pos a b = ground arith

as_i64_small : (n : ℕ) → n < 2 ^ 63 → as_i64 n ≡ pos n
as_i64_small n h = ground arith

jitter_lem : (w : ℕ) (id : Uuid) → w < 2 ^ 63 → jitter_seconds (pos w) id ≡ pos (id % (w + 1))
unfolding jitter_seconds
jitter_lem w id h =
    rw (max_ℤ_zero w)
      (ground (arith, as_i64_small (id % (w + 1)), mod-lt id {m = w + 1} (omega arith)))

pow_le : (e : ℕ) → e ≤ 30 → 2 ^ e ≤ 2 ^ 30
pow_le e h = pow-le-pow_right {n = 2} (omega arith) h

exponent_le : (n : ℕ) → exponent n ≤ 30
unfolding exponent
exponent_le n = omega arith

saturated :
    (b m j f : ℕ)
    → f ≤ 2 ^ 30
    → m < 2 ^ 63
    → min (min (min (min (b * min f (2 ^ 63 - 1)) (2 ^ 63 - 1)) m + j) (2 ^ 63 - 1)) m
      ≡ min m (min (b * f) m + j)
saturated b m j f h k = let e : min f (2 ^ 63 - 1) ≡ f = omega arith in rw e (omega arith)

-- The seconds without machine arithmetic.
abbrev pub ideal_seconds : ℕ → ℕ → ℕ → Uuid → ℕ → ℕ
ideal_seconds base max jitter id n = min max (min (base * 2 ^ exponent n) max + id % (jitter + 1))

-- For delays that are not negative, and a greatest delay and a jitter below 2^63 seconds, the
-- saturating arithmetic of the code gives what exact arithmetic gives.
pub retry_seconds-ideal_seconds :
    (base max jitter : ℕ) (id : Uuid) (n : ℕ)
    → max < 2 ^ 63
    → jitter < 2 ^ 63
    → retry_seconds (pos base) (pos max) (pos jitter) id n
      ≡ pos (ideal_seconds base max jitter id n)
unfolding retry_seconds
retry_seconds-ideal_seconds base max jitter id n hm hj =
    simp (saturate_pos, *ℤ_pos, +ℤ_pos, min_ℤ_pos, jitter_lem jitter id hj)
      (ap pos (
        saturated base max (id % (jitter + 1)) (2 ^ exponent n)
          (pow_le (exponent n) (exponent_le n)) hm))

exponent_mono : (n n' : ℕ) → n ≤ n' → exponent n ≤ exponent n'
unfolding exponent
exponent_mono n n' h = omega arith

delay_mono : (b e e' : ℕ) → e ≤ e' → b * 2 ^ e ≤ b * 2 ^ e'
delay_mono b e e' h = mul-le-mul_left b (pow-le-pow_right {n = 2} (omega arith) h)

-- For delays that are not negative, and a greatest delay and a jitter below 2^63 seconds, the
-- delay lies between 0 and `max_delay`, and a later attempt never waits less.
pub retry_seconds_bounds :
    (base max jitter : ℕ) (id : Uuid) (n n' : ℕ)
    → max < 2 ^ 63
    → jitter < 2 ^ 63
    → n ≤ n'
    → (pos 0 ≤ℤ retry_seconds (pos base) (pos max) (pos jitter) id n)
      × (retry_seconds (pos base) (pos max) (pos jitter) id n
          ≤ℤ retry_seconds (pos base) (pos max) (pos jitter) id n')
      × (retry_seconds (pos base) (pos max) (pos jitter) id n' ≤ℤ pos max)
retry_seconds_bounds base max jitter id n n' hm hj h =
    rw
      (
        retry_seconds-ideal_seconds base max jitter id n hm hj,
        retry_seconds-ideal_seconds base max jitter id n' hm hj,
      )
      (omega (arith, delay_mono base (exponent n) (exponent n') (exponent_mono n n' h)))

-- With a delay that is not zero, the next attempt always waits.
pub retry_seconds_pos :
    (base max jitter : ℕ) (id : Uuid) (n : ℕ)
    → max < 2 ^ 63
    → jitter < 2 ^ 63
    → 0 < base
    → 0 < max
    → pos_part (retry_seconds (pos base) (pos max) (pos jitter) id n) ≢ 0
retry_seconds_pos base max jitter id n hm hj hb hx =
    rw (retry_seconds-ideal_seconds base max jitter id n hm hj)
      (omega (arith, delay_mono base 0 (exponent n) (omega arith)))
