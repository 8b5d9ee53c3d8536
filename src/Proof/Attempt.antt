-- ===== src/Proof/Attempt.antt =====
-- apps/backend/src/services/proof.rs: what a submission does to its challenge, and the payload that
-- is stored of it.
use pi_musubi_core.Prelude.{
  ℕ, ◌+◌, Bool, not, Option, none, some, leb, if◌then◌else◌, ◌==◌, nat_eq, list_eq, string_eq,
}
use pi_musubi_core.Prelude.Text.{trim}
use pi_musubi_core.HashMap.{get, insert}
use pi_musubi_core.Proof.State.{Str, Instant, ProofState, VenueChallengeRecord, RedactedPayload}
use pi_musubi_core.Proof.Messages.{ProofEnvelopeInput, SanitizedCoarseLocationBucket}
use pi_musubi_core.Proof.Texts.{
  trimmed_optional, canonical_optional_json, is_present, parse_submission_fallback_mode, mode_name,
}
use pi_musubi_core.Proof.Challenge.{
  challenge_status_issued, challenge_status_consumed, challenge_status_quarantined,
  max_challenge_failed_attempts,
}
use pi_musubi_core.Proof.Verify.{VerificationDecision, proof_status_verified, quarantined}
use pi_musubi_core.Proof.Verify.Chain.{let_else}

-- `u8::saturating_add`
abbrev pub saturating_add : ℕ → ℕ → ℕ
saturating_add a b = if leb (a + b) 255 then a + b else 255

abbrev pub charged : VenueChallengeRecord → VenueChallengeRecord
charged challenge =
    let count = saturating_add challenge.failed_attempt_count 1 in
    record challenge {
      failed_attempt_count = count;
      status =
          if leb max_challenge_failed_attempts count
          then challenge_status_quarantined
          else challenge.status;
    }

abbrev pub charged_decision : VenueChallengeRecord → VerificationDecision → VerificationDecision
charged_decision challenge decision =
    if leb max_challenge_failed_attempts (charged challenge).failed_attempt_count
    then quarantined "attempt_limit_exceeded"
    else decision

unfoldable pub record_failed_attempt :
    ProofState → Option Str → VerificationDecision → ProofState × VerificationDecision
unfolding trimmed_optional get insert let_else
record_failed_attempt store challenge_id decision =
    let_else (trimmed_optional challenge_id) (store, decision)
      (λ id.
        let_else (get id store.venue_challenges_by_id) (store, decision)
          (λ challenge.
            if not (challenge.status == challenge_status_issued) then (store, decision) else (
              record store {
                venue_challenges_by_id = insert id (charged challenge) store.venue_challenges_by_id;
              },
              charged_decision challenge decision,
            )))

unfoldable pub redacted_payload :
    ProofEnvelopeInput → Option Str → SanitizedCoarseLocationBucket → RedactedPayload
unfolding canonical_optional_json parse_submission_fallback_mode
redacted_payload input display_code_hash sanitized_location = record {
  challenge_id = canonical_optional_json input.challenge_id;
  venue_id = canonical_optional_json input.venue_id;
  display_code_hash = display_code_hash;
  key_version = input.key_version;
  client_nonce_present = is_present input.client_nonce;
  observed_at_ms = input.observed_at_ms;
  coarse_location_bucket = sanitized_location.stored_bucket;
  coarse_location_hint_invalid = sanitized_location.invalid;
  device_session_id_present = is_present input.device_session_id;
  fallback_mode = mode_name (parse_submission_fallback_mode input.fallback_mode);
  operator_pin_present = is_present input.operator_pin;
}

abbrev pub is_verified : VerificationDecision → Bool
is_verified decision = decision.status == proof_status_verified

-- The challenge of an accepted envelope, by the identifier as it is trimmed.
abbrev pub consume : Instant → VenueChallengeRecord → VenueChallengeRecord
consume received_at challenge = record challenge {
  consumed_at = some received_at;
  status = challenge_status_consumed;
}

unfoldable pub consume_challenge : ProofState → Option Str → Instant → ProofState
unfolding get insert let_else
consume_challenge store none received_at = store
consume_challenge store (some challenge_id) received_at =
    let_else (get (trim challenge_id) store.venue_challenges_by_id) store (λ challenge.
      record store {
        venue_challenges_by_id =
            insert (trim challenge_id) (consume received_at challenge) store.venue_challenges_by_id;
      })
