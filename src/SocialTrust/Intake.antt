-- ===== src/SocialTrust/Intake.antt =====
-- apps/backend/crates/social-trust-domain/src/lib.rs: `decide_social_trust_intake`.
pub mod Admissible
use pi_musubi_core.Prelude.{
  ℕ, String, ◌≡◌, ◌≢◌, refl, ap, sym, ◌∙◌, Bool, true, false, not, ◌&&◌, ◌||◌, Option, none, some,
  List, [], ◌∷◌, any, Result, ok, err, arith, PartialEq, ◌==◌, ◌↔◌, ◌⊎◌, inl, inr, nat_eq,
  string_eq, if◌then◌else◌,
}
use pi_musubi_core.SocialTrust.References.{
  StringRef, is_present, is_some_and, is_none, DurableIdempotencyPosture, RetentionPosture,
  EvidencePosture, ReviewabilityPosture, has_dedupe_key, has_class, SocialTrustAuthorityPosture,
  is_projection_only,
}
use pi_musubi_core.SocialTrust.Sources.{
  SocialTrustSourceCategory, ForbiddenSocialTrustSourceCategory,
}

pub record ProposedSocialTrustMutationAttempt : Type 0 where
  pub source_category : SocialTrustSourceCategory
  pub writer_source_reference : Option StringRef
  pub reason_fact : Option StringRef
  pub idempotency_posture : Option DurableIdempotencyPosture
  pub evidence_posture : Option EvidencePosture
  pub reviewability_posture : Option ReviewabilityPosture
  pub retention_posture : Option RetentionPosture
  pub authority_posture : SocialTrustAuthorityPosture

pub data SocialTrustIntakeRejection : Type 0 where
  forbidden_source : ForbiddenSocialTrustSourceCategory → SocialTrustIntakeRejection
  unknown_source_category projection_only_authority : SocialTrustIntakeRejection
  missing_writer_source_reference missing_reason_fact missing_idempotency_posture :
      SocialTrustIntakeRejection
  missing_evidence_posture missing_reviewability_posture missing_retention_posture :
      SocialTrustIntakeRejection

pub data SocialTrustIntakeDecision : Type 0 where
  reject : SocialTrustIntakeRejection → SocialTrustIntakeDecision
  candidate_for_writer_persistence : SocialTrustIntakeDecision

unfoldable pub rejection_code : SocialTrustIntakeRejection → String
rejection_code (SocialTrustIntakeRejection.forbidden_source a) = "forbidden_source"
rejection_code SocialTrustIntakeRejection.unknown_source_category = "unknown_source_category"
rejection_code SocialTrustIntakeRejection.projection_only_authority = "projection_only_authority"
rejection_code SocialTrustIntakeRejection.missing_writer_source_reference =
    "missing_writer_source_reference"
rejection_code SocialTrustIntakeRejection.missing_reason_fact = "missing_reason_fact"
rejection_code SocialTrustIntakeRejection.missing_idempotency_posture =
    "missing_idempotency_posture"
rejection_code SocialTrustIntakeRejection.missing_evidence_posture = "missing_evidence_posture"
rejection_code SocialTrustIntakeRejection.missing_reviewability_posture =
    "missing_reviewability_posture"
rejection_code SocialTrustIntakeRejection.missing_retention_posture = "missing_retention_posture"

abbrev pub kind : SocialTrustIntakeDecision → String
kind (SocialTrustIntakeDecision.reject r) = "rejected"
kind SocialTrustIntakeDecision.candidate_for_writer_persistence = "candidate_for_writer_persistence"

unfoldable pub rejection_reason_code : SocialTrustIntakeDecision → Option String
unfolding rejection_code
rejection_reason_code (SocialTrustIntakeDecision.reject rejection) = some (rejection_code rejection)
rejection_reason_code SocialTrustIntakeDecision.candidate_for_writer_persistence = none

-- What follows the match on the source category.
unfoldable pub decide_candidate : ProposedSocialTrustMutationAttempt → SocialTrustIntakeDecision
decide_candidate attempt =
    if is_projection_only attempt.authority_posture
    then SocialTrustIntakeDecision.reject SocialTrustIntakeRejection.projection_only_authority
    else if not (is_some_and attempt.writer_source_reference is_present)
    then SocialTrustIntakeDecision.reject SocialTrustIntakeRejection.missing_writer_source_reference
    else if not (is_some_and attempt.reason_fact is_present)
    then SocialTrustIntakeDecision.reject SocialTrustIntakeRejection.missing_reason_fact
    else if not (is_some_and attempt.idempotency_posture has_dedupe_key)
    then SocialTrustIntakeDecision.reject SocialTrustIntakeRejection.missing_idempotency_posture
    else if is_none attempt.evidence_posture
    then SocialTrustIntakeDecision.reject SocialTrustIntakeRejection.missing_evidence_posture
    else if is_none attempt.reviewability_posture
    then SocialTrustIntakeDecision.reject SocialTrustIntakeRejection.missing_reviewability_posture
    else if not (is_some_and attempt.retention_posture has_class)
    then SocialTrustIntakeDecision.reject SocialTrustIntakeRejection.missing_retention_posture
    else SocialTrustIntakeDecision.candidate_for_writer_persistence

unfoldable pub decide_social_trust_intake :
    ProposedSocialTrustMutationAttempt → SocialTrustIntakeDecision
unfolding decide_candidate
decide_social_trust_intake attempt = elim attempt.source_category [
  | SocialTrustSourceCategory.forbidden source ↦
      SocialTrustIntakeDecision.reject (SocialTrustIntakeRejection.forbidden_source source)
  | SocialTrustSourceCategory.unknown ↦
      SocialTrustIntakeDecision.reject SocialTrustIntakeRejection.unknown_source_category
  | SocialTrustSourceCategory.writer_source_candidate ↦ decide_candidate attempt
]
