-- ===== src/Orchestration/Policy.antt =====
-- apps/backend/crates/orchestration/src/policy.rs. The crate takes instants and durations from
-- chrono, which is the parameter `Chrono`.
pub mod Retry
use pi_musubi_core.Prelude.{
  ℕ, zero, suc, ◌+◌, ◌-◌, ◌/◌, ◌%◌, ◌^◌, String, Bool, true, false, Result, ok, err, if◌then◌else◌,
  ltb, leb,
}
use Prim.Native.Nat.{min}
use Prim.Native.String.{slice, ◌++◌}
use pi_musubi_core.Prelude.Int.{ℤ, pos, negsuc, pos_part, ◌+ℤ◌, ◌*ℤ◌, leb_ℤ, min_ℤ, max_ℤ, sub_ℕ}
use pi_musubi_core.Orchestration.Model.{
  Uuid, DateTime, ProcessingFailure, deferred_failure, expired_window_failure,
}

-- `now + delta`, `num_seconds` and `TimeDelta::seconds`.
pub record Chrono : Type 1 where
  pub TimeDelta : Type 0
  pub num_seconds : TimeDelta → ℤ
  pub seconds : ℤ → TimeDelta
  pub add : DateTime → TimeDelta → DateTime

-- An `i64`: its bounds, the saturation to them, and the cast of a larger unsigned number.
abbrev pub i64_max : ℤ
i64_max = pos (2 ^ 63 - 1)

abbrev pub i64_min : ℤ
i64_min = negsuc (2 ^ 63 - 1)

abbrev pub saturate : ℤ → ℤ
saturate a = min_ℤ (max_ℤ a i64_min) i64_max

abbrev pub as_i64 : ℕ → ℤ
as_i64 n = let low = n % 2 ^ 64 in if ltb low (2 ^ 63) then pos low else negsuc (2 ^ 64 - low - 1)

-- `next_retry_at` up to the last line, over the seconds of `base_delay`, `max_delay` and
-- `max_jitter`.
unfoldable pub exponent : ℕ → ℕ
exponent next_attempt_number = min (next_attempt_number - 1) 30

unfoldable pub jitter_seconds : ℤ → Uuid → ℤ
jitter_seconds max_jitter correlation_id =
    let jitter_window = pos_part (max_ℤ max_jitter (pos 0)) in
    if leb jitter_window 0 then pos 0 else as_i64 (correlation_id % (jitter_window + 1))

unfoldable pub retry_seconds : ℤ → ℤ → ℤ → Uuid → ℕ → ℤ
unfolding exponent jitter_seconds ◌+ℤ◌ ◌*ℤ◌
retry_seconds base_delay max_delay max_jitter correlation_id next_attempt_number =
    let factor = saturate (pos (2 ^ exponent next_attempt_number)) in
    let base_seconds = saturate (base_delay *ℤ factor) in
    let capped_seconds = min_ℤ base_seconds max_delay in
    min_ℤ (saturate (capped_seconds +ℤ jitter_seconds max_jitter correlation_id)) max_delay

-- `Display` of an `i32`: at most ten digits.
decimal : ℕ → ℕ → String
decimal zero n = ""
decimal (suc fuel) n =
    let rest = decimal fuel (n / 10) in
    let digit = slice "0123456789" (n % 10) (n % 10 + 1) in
    if ltb n 10 then digit else rest ++ digit

show_int : ℤ → String
unfolding decimal
show_int (pos n) = decimal 10 n
show_int (negsuc n) = "-" ++ decimal 10 (n + 1)

module _ (chrono : Chrono) where
  open chrono use {TimeDelta, num_seconds, seconds, add}

  pub record RetryPolicy : Type 0 where
    pub max_attempts : ℕ  -- u32
    pub base_delay : TimeDelta
    pub max_delay : TimeDelta
    pub max_jitter : TimeDelta

  pub record RetentionPolicy : Type 0 where
    pub published_outbox_for : TimeDelta
    pub quarantined_outbox_for : TimeDelta
    pub completed_command_for : TimeDelta
    pub quarantined_command_for : TimeDelta

  pub record SchemaCompatibilityPolicy : Type 0 where
    pub max_supported_schema_version : ℤ
    pub compatibility_window : TimeDelta

  unfoldable pub next_retry_at : RetryPolicy → DateTime → Uuid → ℕ → DateTime
  unfolding retry_seconds
  next_retry_at policy now correlation_id next_attempt_number = add now (
      seconds (
        retry_seconds (num_seconds policy.base_delay) (num_seconds policy.max_delay)
          (num_seconds policy.max_jitter) correlation_id next_attempt_number))

  unfoldable pub classify :
      SchemaCompatibilityPolicy → ℤ → DateTime → DateTime → Result ProcessingFailure (Unit {0})
  unfolding deferred_failure expired_window_failure show_int
  classify policy schema_version first_seen_at now =
      if leb_ℤ schema_version policy.max_supported_schema_version
      then ok tt
      else if ltb now (add first_seen_at policy.compatibility_window)
      then err (
          deferred_failure "unknown_schema_version" (
            "schema_version "
            ++ (show_int schema_version
                ++ (" is newer than supported version "
                    ++ show_int policy.max_supported_schema_version))))
      else err (
          expired_window_failure "unknown_schema_version" (
            "schema_version "
            ++ (show_int schema_version
                ++ " remained unsupported beyond the compatibility window")))
