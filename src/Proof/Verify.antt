-- ===== src/Proof/Verify.antt =====
-- apps/backend/src/services/proof.rs: `verify_envelope`, with the decisions and the risk flags.
pub mod Chain
pub mod Guards
pub mod Presence
pub mod Accept
use pi_musubi_core.Prelude.{
  ℕ, suc, ◌≡◌, String, Bool, true, false, not, ◌&&◌, ◌||◌, Option, none, some, List, [], ◌∷◌, ◌++◌,
  leb, ltb, if◌then◌else◌, ◌==◌, nat_eq, list_eq, string_eq, int_eq, pair_eq, any,
}
use pi_musubi_core.Prelude.Int.{ℤ, pos, negsuc}
use pi_musubi_core.Prelude.Text.{codes, trim}
use pi_musubi_core.HashMap.{get, insert}
use pi_musubi_core.Settlement.Currency.{byte_count}
use pi_musubi_core.Proof.State.{
  Str, Instant, Crates, ProofState, VenueChallengeRecord, VenueKeyVersionRecord,
}
use pi_musubi_core.Proof.Messages.{
  ProofEnvelopeInput, SubmissionFallbackMode, none_mode, operator_pin_mode,
  SanitizedCoarseLocationBucket,
}
use pi_musubi_core.Proof.Texts.{trimmed_optional, fallback_operator_pin}
use pi_musubi_core.Proof.Digest.{Bytes, as_bytes, digest_parts, hmac_sha256_matches}
use pi_musubi_core.Proof.Keys.{
  key_status_active, key_status_draining, key_status_revoked, display_code_valid_for_key,
}
use pi_musubi_core.Proof.Keys.Prune.{key_of}
use pi_musubi_core.Proof.Challenge.{
  challenge_status_expired, challenge_status_quarantined, max_challenge_failed_attempts, is_none,
}
use pi_musubi_core.Proof.Start.{is_some}

abbrev pub proof_status_verified : String
proof_status_verified = "verified"

abbrev pub proof_status_rejected : String
proof_status_rejected = "rejected"

abbrev pub proof_status_quarantined : String
proof_status_quarantined = "quarantined"

abbrev pub reason_verified : String
reason_verified = "verified"

pub record VerificationDecision : Type 0 where
  pub status : String
  pub reason_code : String
  pub next_action : Option String

-- The flags are those of the call, with what the operator's PIN adds.
pub record VerificationResult : Type 0 where
  pub decision : VerificationDecision
  pub charge_attempt : Bool
  pub flags : List String

abbrev pub verified : VerificationDecision
verified = record {
  status = proof_status_verified;
  reason_code = reason_verified;
  next_action = none;
}

abbrev pub rejected : String → VerificationDecision
rejected reason_code = record {
  status = proof_status_rejected;
  reason_code = reason_code;
  next_action = some "retry_proof";
}

abbrev pub quarantined : String → VerificationDecision
quarantined reason_code = record {
  status = proof_status_quarantined;
  reason_code = reason_code;
  next_action = some "operator_review";
}

abbrev pub no_charge : List String → VerificationDecision → VerificationResult
no_charge flags decision = record { decision = decision; charge_attempt = false; flags = flags }

abbrev pub charge : List String → VerificationDecision → VerificationResult
charge flags decision = record { decision = decision; charge_attempt = true; flags = flags }

-- `abs() > 120`
abbrev pub is_skewed : ℤ → Bool
is_skewed (pos n) = ltb 120 n
is_skewed (negsuc n) = ltb 120 (suc n)

abbrev pub oversized : Option Str → List String
oversized none = []
oversized (some id) = if ltb 128 (byte_count (trim id)) then "device_hint_oversized" ∷ [] else []

module _ (crates : Crates) where
  abbrev pub clock_flags : Option ℤ → Instant → List String
  clock_flags none received_at = []
  clock_flags (some ms) received_at = elim (crates.from_timestamp_millis ms) [
    | none ↦ "client_clock_invalid" ∷ []
    | some observed_at ↦
        if is_skewed (crates.seconds_between received_at observed_at)
        then "client_clock_skew_high" ∷ []
        else []
  ]

  unfoldable pub risk_flags :
      ProofEnvelopeInput → SanitizedCoarseLocationBucket → Instant → List String
  risk_flags input sanitized_location received_at =
      clock_flags input.observed_at_ms received_at
      ++ (if sanitized_location.invalid then "invalid_coarse_location_hint" ∷ [] else [])
      ++ oversized input.device_session_id

abbrev pub is_grave : String → Bool
is_grave flag =
    (flag == "client_clock_invalid")
    || (flag == "client_clock_skew_high")
    || (flag == "device_hint_oversized")
    || (flag == "invalid_coarse_location_hint")

unfoldable pub risk_requires_quarantine : List String → Bool
risk_requires_quarantine = any is_grave

-- `is_none_or(|expires_at| received_at > expires_at)`
abbrev pub is_over : Instant → Option Instant → Bool
is_over now none = true
is_over now (some at) = ltb at now

-- `is_some_and(|not_after| received_at > not_after)`
abbrev pub is_after : Instant → Option Instant → Bool
is_after now none = false
is_after now (some at) = ltb at now

-- `is_some_and(|submitted| submitted != version)`
abbrev pub differs : ℤ → Option ℤ → Bool
differs version none = false
differs version (some submitted) = not (submitted == version)
