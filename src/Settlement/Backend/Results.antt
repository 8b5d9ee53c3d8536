-- ===== src/Settlement/Backend/Results.antt =====
-- apps/backend/crates/settlement-domain/src/results.rs, observation.rs and errors.rs: what a
-- backend answers. A `SystemTime` and a `Duration` are numbers.
use pi_musubi_core.Prelude.{ℕ, String, Option, List}
use pi_musubi_core.Settlement.Money.{Money}

pub data VerificationRejectReason : Type 0 where
  signature_invalid amount_mismatch currency_mismatch : VerificationRejectReason
  provider_rejected unsupported_evidence : VerificationRejectReason

pub data ReviewReason : Type 0 where
  ambiguous_evidence contradictory_evidence missing_evidence : ReviewReason
  capability_mismatch timeout unknown_provider_behavior : ReviewReason

pub data PermanentFailureReason : Type 0 where
  capability_unsupported invalid_request provider_rejected policy_refused : PermanentFailureReason

pub data ContradictionReason : Type 0 where
  conflicting_observations missing_expected_state : ContradictionReason
  provider_disagreed_with_receipt unknown : ContradictionReason

pub data ObservationConfidence : Type 0 where
  cryptographic_proof provider_confirmed heuristic_pending unknown : ObservationConfidence

pub data NormalizedObservationKind : Type 0 where
  receipt_verified submission_accepted pending finalized failed : NormalizedObservationKind
  contradictory not_found callback_normalized unknown : NormalizedObservationKind

pub record NormalizedObservation : Type 0 where
  pub observation_id : String
  pub kind : NormalizedObservationKind
  pub confidence : ObservationConfidence
  pub observed_at : Option ℕ
  pub provider_ref : Option String
  pub provider_tx_hash : Option String

pub data ReceiptVerification : Type 0 where
  verified :
      Option String → Option Money → Option ℕ → List NormalizedObservation → ReceiptVerification
  rejected : VerificationRejectReason → List NormalizedObservation → ReceiptVerification
  needs_manual_review : ReviewReason → List NormalizedObservation → ReceiptVerification

pub data SubmissionResult : Type 0 where
  accepted :
      Option String
      → Option String
      → String
      → Option String
      → List NormalizedObservation
      → SubmissionResult
  deferred : String → Option ℕ → List NormalizedObservation → SubmissionResult
  rejected_permanent : PermanentFailureReason → List NormalizedObservation → SubmissionResult
  needs_manual_review : ReviewReason → List NormalizedObservation → SubmissionResult

pub data ReconcileResult : Type 0 where
  pending : List NormalizedObservation → ReconcileResult
  finalized : List NormalizedObservation → ReconcileResult
  contradictory : List NormalizedObservation → ContradictionReason → ReconcileResult
  not_found : List NormalizedObservation → ReconcileResult
  needs_manual_review : ReviewReason → List NormalizedObservation → ReconcileResult
