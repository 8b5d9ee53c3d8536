-- ===== src/Proof/Submit.antt =====
-- apps/backend/src/services/proof.rs: `submit_proof_envelope_at`. The identifiers that the code
-- draws are arguments.
pub mod Cases
pub mod Steps
pub mod Replay
use pi_musubi_core.Prelude.{
  ℕ, ◌+◌, ◌≡◌, String, Bool, true, false, not, ◌&&◌, Option, none, some, List, [], ◌∷◌, leb,
  if◌then◌else◌, ◌==◌, nat_eq, list_eq, string_eq, ltb,
}
use pi_musubi_core.Prelude.Text.{trim}
use pi_musubi_core.HashMap.{get, insert}
use pi_musubi_core.Proof.State.{
  Str, Instant, Crates, ProofState, VenueChallengeRecord, ProofSubmissionRecord,
  ProofVerificationRecord, RedactedPayload,
}
use pi_musubi_core.Proof.Messages.{
  ProofEnvelopeInput, ProofSubmissionOutcome, SubmissionFallbackMode, SanitizedCoarseLocationBucket,
}
use pi_musubi_core.Proof.Texts.{
  trimmed_optional, canonical_optional_json, is_present, parse_submission_fallback_mode, mode_name,
  sanitize_coarse_location_bucket,
}
use pi_musubi_core.Proof.Digest.{
  server_keyed_display_code_hash, server_keyed_device_session_id_hash, replay_key,
}
use pi_musubi_core.Proof.Challenge.{
  challenge_status_issued, challenge_status_consumed, challenge_status_quarantined,
  max_challenge_failed_attempts,
}
use pi_musubi_core.Proof.Prune.{prune_ephemeral_proof_state}
use pi_musubi_core.Proof.Start.{option_map}
use pi_musubi_core.Proof.Verify.{
  VerificationDecision, VerificationResult, proof_status_verified, reason_verified, rejected,
  quarantined, no_charge, risk_flags,
}
use pi_musubi_core.Proof.Verify.Chain.{let_else, put_challenge, verify_envelope}
use pi_musubi_core.Proof.Attempt.{
  saturating_add, charged, charged_decision, record_failed_attempt, redacted_payload, is_verified,
  consume, consume_challenge,
}

-- The texts that `Uuid::new_v4` makes in one call.
pub record SubmitIds : Type 0 where
  pub proof_submission_id : Str
  pub proof_verification_id : Str

abbrev pub option_and_then {ℓ κ} : {A : Type ℓ} {B : Type κ} → Option A → (A → Option B) → Option B
option_and_then none f = none
option_and_then (some a) f = f a

module _ (crates : Crates) (input : ProofEnvelopeInput) (ids : SubmitIds)
    (received_at : Instant) where
  unfoldable pub submission_flags : List String
  unfolding risk_flags sanitize_coarse_location_bucket
  submission_flags =
      risk_flags crates input (sanitize_coarse_location_bucket input.coarse_location_bucket)
        received_at

  unfoldable pub submission_record : Str → VerificationDecision → ProofSubmissionRecord
  unfolding trimmed_optional replay_key server_keyed_display_code_hash
      server_keyed_device_session_id_hash sanitize_coarse_location_bucket
      parse_submission_fallback_mode redacted_payload
  submission_record server_secret decision =
      let display_code_hash =
        option_map (server_keyed_display_code_hash crates server_secret) input.display_code in
      let sanitized_location = sanitize_coarse_location_bucket input.coarse_location_bucket in
      record {
        proof_submission_id = ids.proof_submission_id;
        challenge_id = trimmed_optional input.challenge_id;
        subject_account_id = input.subject_account_id;
        replay_key = replay_key crates server_secret input;
        display_code_hash = display_code_hash;
        received_at = received_at;
        observed_at_client =
            option_and_then input.observed_at_ms (λ ms. crates.from_timestamp_millis ms);
        coarse_location_bucket = sanitized_location.stored_bucket;
        device_session_id_hash =
            option_map (server_keyed_device_session_id_hash crates server_secret)
              (trimmed_optional input.device_session_id);
        fallback_mode = mode_name (parse_submission_fallback_mode input.fallback_mode);
        raw_payload_json = redacted_payload input display_code_hash sanitized_location;
        verification_status = decision.status;
      }

  -- The decision before an attempt is charged.
  unfoldable pub verify_submission : ProofState → ProofState × VerificationResult
  unfolding parse_submission_fallback_mode get replay_key verify_envelope submission_flags let_else
  verify_submission store =
      let_else (parse_submission_fallback_mode input.fallback_mode)
        (store, no_charge submission_flags (rejected "unsupported_fallback_mode"))
        (λ mode. verify_envelope crates input received_at submission_flags store mode (
          get (replay_key crates store.server_secret input)
            store.proof_submission_id_by_replay_key))

  -- The decision, once a failed attempt is charged.
  unfoldable pub decide_submission : ProofState → ProofState × VerificationDecision
  unfolding verify_submission record_failed_attempt
  decide_submission store =
      let checked = verify_submission store in
      if checked.1.charge_attempt && not (is_verified checked.1.decision)
      then record_failed_attempt checked.0 input.challenge_id checked.1.decision
      else (checked.0, checked.1.decision)

  -- The submission and its place in the replay index.
  unfoldable pub record_submission : VerificationDecision → ProofState → ProofState
  unfolding submission_record replay_key insert
  record_submission decision store = record store {
    proof_submission_id_by_replay_key =
        insert (replay_key crates store.server_secret input) ids.proof_submission_id
          store.proof_submission_id_by_replay_key;
    proof_submissions_by_id =
        insert ids.proof_submission_id (submission_record store.server_secret decision)
          store.proof_submissions_by_id;
  }

  unfoldable pub record_verification : VerificationDecision → List String → ProofState → ProofState
  unfolding insert
  record_verification decision flags store = record store {
    proof_verifications_by_id =
        insert ids.proof_verification_id
          (record {
            proof_verification_id = ids.proof_verification_id;
            proof_submission_id = ids.proof_submission_id;
            result = decision.status;
            reason_code = decision.reason_code;
            risk_flags = flags;
            verified_at = received_at;
            operator_override_case_id = none;
          })
          store.proof_verifications_by_id;
  }

  abbrev pub submission_outcome : VerificationDecision → List String → ProofSubmissionOutcome
  submission_outcome decision flags = record {
    proof_submission_id = ids.proof_submission_id;
    proof_verification_id = ids.proof_verification_id;
    accepted = is_verified decision;
    verification_status = decision.status;
    reason_code =
        if decision.reason_code == reason_verified then none else some decision.reason_code;
    risk_flags = flags;
    next_action = decision.next_action;
  }

  -- What is written down once the decision is made.
  unfoldable pub settle_submission : VerificationDecision → List String → ProofState → ProofState
  unfolding record_submission consume_challenge record_verification
  settle_submission decision flags store =
      let recorded = record_submission decision store in
      record_verification decision flags (
        if is_verified decision
        then consume_challenge recorded input.challenge_id received_at
        else recorded)

  unfoldable pub submit_pruned : ProofState → ProofState × ProofSubmissionOutcome
  unfolding verify_submission decide_submission settle_submission prune_ephemeral_proof_state
  submit_pruned store =
      let flags = (verify_submission store).1.flags in
      let decided = decide_submission store in
      (
        prune_ephemeral_proof_state crates (settle_submission decided.1 flags decided.0)
            received_at,
        submission_outcome decided.1 flags,
      )

  unfoldable pub submit_proof_envelope_at : ProofState → ProofState × ProofSubmissionOutcome
  unfolding submit_pruned prune_ephemeral_proof_state
  submit_proof_envelope_at store =
      submit_pruned (prune_ephemeral_proof_state crates store received_at)
