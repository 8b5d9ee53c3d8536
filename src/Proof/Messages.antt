-- ===== src/Proof/Messages.antt =====
-- apps/backend/src/services/proof.rs: the inputs and the outcomes of the two operations.
use pi_musubi_core.Prelude.{String, Bool, Option, List}
use pi_musubi_core.Prelude.Int.{ℤ}
use pi_musubi_core.Proof.State.{Str, Instant}

pub record StartProofChallengeInput : Type 0 where
  pub subject_account_id : Str
  pub venue_id : Str
  pub realm_id : Str
  pub fallback_mode : Str
  pub operator_id : Option Str

pub record StartProofChallengeOutcome : Type 0 where
  pub challenge_id : Str
  pub venue_id : Str
  pub realm_id : Str
  pub expires_at : Instant
  pub client_nonce : Str
  pub allowed_fallback_mode : String
  pub venue_key_version : ℤ
  pub operator_pin_issued : Bool

pub record OperatorPinDelivery : Type 0 where
  pub challenge_id : Str
  pub operator_id : Str
  pub venue_id : Str
  pub realm_id : Str
  pub pin : Str
  pub expires_at : Instant

pub record StartProofChallengeServiceOutcome : Type 0 where
  pub client : StartProofChallengeOutcome
  pub operator_delivery : Option OperatorPinDelivery

pub record ProofEnvelopeInput : Type 0 where
  pub subject_account_id : Str
  pub challenge_id : Option Str
  pub venue_id : Option Str
  pub display_code : Option Str
  pub key_version : Option ℤ
  pub client_nonce : Option Str
  pub observed_at_ms : Option ℤ
  pub coarse_location_bucket : Option Str
  pub device_session_id : Option Str
  pub fallback_mode : Option Str
  pub operator_pin : Option Str

pub record ProofSubmissionOutcome : Type 0 where
  pub proof_submission_id : Str
  pub proof_verification_id : Str
  pub accepted : Bool
  pub verification_status : String
  pub reason_code : Option String
  pub risk_flags : List String
  pub next_action : Option String

-- `SubmissionFallbackMode`
pub data SubmissionFallbackMode : Type 0 where
  none_mode operator_pin_mode : SubmissionFallbackMode

pub record SanitizedCoarseLocationBucket : Type 0 where
  pub stored_bucket : Option Str
  pub invalid : Bool

-- `HappyRouteError::BadRequest`, the only error of the service.
pub data ProofError : Type 0 where
  bad_request : String → ProofError
