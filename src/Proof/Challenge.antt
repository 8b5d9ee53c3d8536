-- ===== src/Proof/Challenge.antt =====
-- apps/backend/src/services/proof.rs: which challenges are active, and how they are counted.
use pi_musubi_core.Prelude.{
  ℕ, String, Bool, true, false, ◌&&◌, Option, none, some, length, filter, leb, ltb, if◌then◌else◌,
  ◌==◌, nat_eq, list_eq, string_eq,
}
use pi_musubi_core.HashMap.{values}
use pi_musubi_core.Proof.State.{
  Str, Instant, Crates, ProofState, VenueChallengeRecord, OperatorPinAuditRecord,
}

abbrev pub challenge_status_issued : String
challenge_status_issued = "issued"

abbrev pub challenge_status_consumed : String
challenge_status_consumed = "consumed"

abbrev pub challenge_status_expired : String
challenge_status_expired = "expired"

abbrev pub challenge_status_quarantined : String
challenge_status_quarantined = "quarantined"

abbrev pub challenge_ttl_seconds : ℕ
challenge_ttl_seconds = 90

abbrev pub operator_pin_ttl_seconds : ℕ
operator_pin_ttl_seconds = 60

abbrev pub operator_pin_rate_limit_window_seconds : ℕ
operator_pin_rate_limit_window_seconds = 60

abbrev pub operator_pin_rate_limit_per_minute : ℕ
operator_pin_rate_limit_per_minute = 3

abbrev pub max_challenge_failed_attempts : ℕ
max_challenge_failed_attempts = 3

abbrev pub proof_challenge_retention_seconds : ℕ
proof_challenge_retention_seconds = 180

abbrev pub proof_submission_retention_seconds : ℕ
proof_submission_retention_seconds = 900

abbrev pub max_active_proof_challenges_per_subject : ℕ
max_active_proof_challenges_per_subject = 4

abbrev pub max_retained_proof_submissions : ℕ
max_retained_proof_submissions = 1024

abbrev pub max_retained_proof_challenges : ℕ
max_retained_proof_challenges = max_retained_proof_submissions

abbrev pub max_active_proof_challenges : ℕ
max_active_proof_challenges = max_retained_proof_challenges

abbrev pub max_retained_operator_pin_audits : ℕ
max_retained_operator_pin_audits = max_retained_proof_challenges

abbrev pub is_none {ℓ} : {A : Type ℓ} → Option A → Bool
is_none none = true
is_none (some a) = false

-- The later of an instant and one that may be absent.
abbrev pub later : Instant → Option Instant → Instant
later anchor none = anchor
later anchor (some at) = if ltb anchor at then at else anchor

unfoldable pub challenge_retention_anchor : VenueChallengeRecord → Instant
challenge_retention_anchor challenge =
    later (later challenge.expires_at challenge.consumed_at) challenge.operator_pin_expires_at

unfoldable pub is_challenge_active : Instant → VenueChallengeRecord → Bool
is_challenge_active now challenge =
    (challenge.status == challenge_status_issued)
    && is_none challenge.consumed_at
    && leb now challenge.expires_at

unfoldable pub active_challenge_count : ProofState → Instant → ℕ
unfolding is_challenge_active values
active_challenge_count store now =
    length (filter (is_challenge_active now) (values store.venue_challenges_by_id))

abbrev pub is_active_of : Str → Instant → VenueChallengeRecord → Bool
is_active_of subject_account_id now challenge =
    (challenge.subject_account_id == subject_account_id) && is_challenge_active now challenge

unfoldable pub active_challenge_count_for_subject : ProofState → Str → Instant → ℕ
unfolding is_challenge_active values
active_challenge_count_for_subject store subject_account_id now =
    length (filter (is_active_of subject_account_id now) (values store.venue_challenges_by_id))

module _ (crates : Crates) where
  abbrev pub issued_since : Str → Str → Str → Instant → OperatorPinAuditRecord → Bool
  issued_since realm_id venue_id operator_id now audit =
      (audit.realm_id == realm_id)
      && (audit.venue_id == venue_id)
      && (audit.operator_id == operator_id)
      && leb (crates.sub_seconds now operator_pin_rate_limit_window_seconds) audit.issued_at
      && leb audit.issued_at now

  unfoldable pub operator_pin_issuance_count : ProofState → Str → Str → Str → Instant → ℕ
  operator_pin_issuance_count store realm_id venue_id operator_id now =
      length (filter (issued_since realm_id venue_id operator_id now) store.operator_pin_audits)
