-- ===== src/Proof/State.antt =====
-- apps/backend/src/services/proof.rs: `ProofState` and its records, the inputs and the outcomes.
-- A text that comes from outside is the list of its code points, the service's own words are
-- strings. `Crates` are the calls of chrono, sha2 and hmac; an instant is its place in the order of
-- instants.
use pi_musubi_core.Prelude.{ℕ, String, Bool, Option, List, []}
use pi_musubi_core.Prelude.Int.{ℤ}
use pi_musubi_core.HashMap.{HashMap}

abbrev pub Str : Type 0
Str = List ℕ

abbrev pub Instant : Type 0
Instant = ℕ

pub record Crates : Type 0 where
  pub add_seconds : Instant → ℕ → Instant
  pub sub_seconds : Instant → ℕ → Instant
  pub timestamp : Instant → ℤ
  pub from_timestamp_millis : ℤ → Option Instant
  pub seconds_between : Instant → Instant → ℤ
  pub sha256 : List ℕ → List ℕ
  pub hmac : List ℕ → List ℕ → List ℕ

-- The realm, the venue and the version of a key.
abbrev pub KeyId : Type 0
KeyId = Str × (Str × ℤ)

pub record VenueKeyVersionRecord : Type 0 where
  pub realm_id : Str
  pub venue_id : Str
  pub key_version : ℤ
  pub secret_material : Str
  pub status : String
  pub not_before : Instant
  pub not_after : Option Instant
  pub created_at : Instant

pub record VenueChallengeRecord : Type 0 where
  pub challenge_id : Str
  pub subject_account_id : Str
  pub venue_id : Str
  pub realm_id : Str
  pub client_nonce_hash : Str
  pub issued_at : Instant
  pub expires_at : Instant
  pub consumed_at : Option Instant
  pub fallback_mode : String
  pub operator_pin_hash : Option (List ℕ)
  pub operator_pin_expires_at : Option Instant
  pub operator_id : Option Str
  pub venue_key_version : ℤ
  pub failed_attempt_count : ℕ
  pub status : String

-- The entries of the JSON object that `redacted_payload` writes.
pub record RedactedPayload : Type 0 where
  pub challenge_id : Option Str
  pub venue_id : Option Str
  pub display_code_hash : Option Str
  pub key_version : Option ℤ
  pub client_nonce_present : Bool
  pub observed_at_ms : Option ℤ
  pub coarse_location_bucket : Option Str
  pub coarse_location_hint_invalid : Bool
  pub device_session_id_present : Bool
  pub fallback_mode : String
  pub operator_pin_present : Bool

pub record ProofSubmissionRecord : Type 0 where
  pub proof_submission_id : Str
  pub challenge_id : Option Str
  pub subject_account_id : Str
  pub replay_key : Str
  pub display_code_hash : Option Str
  pub received_at : Instant
  pub observed_at_client : Option Instant
  pub coarse_location_bucket : Option Str
  pub device_session_id_hash : Option Str
  pub fallback_mode : String
  pub raw_payload_json : RedactedPayload
  pub verification_status : String

pub record ProofVerificationRecord : Type 0 where
  pub proof_verification_id : Str
  pub proof_submission_id : Str
  pub result : String
  pub reason_code : String
  pub risk_flags : List String
  pub verified_at : Instant
  pub operator_override_case_id : Option Str

pub record OperatorPinAuditRecord : Type 0 where
  pub audit_id : Str
  pub challenge_id : Str
  pub operator_id : Str
  pub venue_id : Str
  pub realm_id : Str
  pub issued_at : Instant
  pub expires_at : Instant
  pub pin_hash : List ℕ

pub record ProofState : Type 0 where
  pub server_secret : Str
  pub venue_key_versions : HashMap KeyId VenueKeyVersionRecord
  pub active_key_version_by_venue : HashMap (Str × Str) ℤ
  pub venue_challenges_by_id : HashMap Str VenueChallengeRecord
  pub proof_submissions_by_id : HashMap Str ProofSubmissionRecord
  pub proof_submission_id_by_replay_key : HashMap Str Str
  pub proof_verifications_by_id : HashMap Str ProofVerificationRecord
  pub operator_pin_audits : List OperatorPinAuditRecord

unfoldable pub with_server_secret : Str → ProofState
with_server_secret server_secret = record {
  server_secret = server_secret;
  venue_key_versions = [];
  active_key_version_by_venue = [];
  venue_challenges_by_id = [];
  proof_submissions_by_id = [];
  proof_submission_id_by_replay_key = [];
  proof_verifications_by_id = [];
  operator_pin_audits = [];
}
