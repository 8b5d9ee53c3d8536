-- ===== src/SocialTrust/Proposal.antt =====
-- apps/backend/crates/social-trust-domain/src/lib.rs: a proposed mutation fact and the decisions on it.
use pi_musubi_core.Prelude.{String, Option, none, some, nat_eq, string_eq}
use pi_musubi_core.SocialTrust.References.{
  StringRef, RetentionPosture, EvidencePosture, ReviewabilityPosture, SocialTrustAuthorityPosture,
}
use pi_musubi_core.SocialTrust.Rejected.{RejectedC2BoundedPromiseReliabilitySourceFact}
use pi_musubi_core.SocialTrust.Facts.{
  C2BoundedPromiseReliabilitySourceFact, C2BoundedPromiseReliabilityMutationFact,
  C2BoundedPromiseReliabilityMutationDirection, C2BoundedPromiseReliabilityMutationMagnitude,
  C2BoundedPromiseReliabilitySourceFactCandidate, C2BoundedPromiseReliabilityMutationFactCandidate,
}
use pi_musubi_core.SocialTrust.Boundary.{
  C2BoundedPromiseReliabilityBoundaryIntersection, C2BoundedPromiseReliabilityBoundaryPosture,
}

pub record ProposedC2BoundedPromiseReliabilityMutationFact : Type 0 where
  pub source_fact : C2BoundedPromiseReliabilitySourceFactCandidate
  pub requested_mutation_fact : C2BoundedPromiseReliabilityMutationFactCandidate
  pub writer_source_reference : Option StringRef
  pub promise_reference : Option StringRef
  pub promise_terms_reference : Option StringRef
  pub consent_at_formation_reference : Option StringRef
  pub consent_at_resolution_reference : Option StringRef
  pub block_withdrawal_state_reference : Option StringRef
  pub age_assurance_state_reference : Option StringRef
  pub legal_hold_intersection_reference : Option StringRef
  pub critical_harm_case_reference : Option StringRef
  pub account_lifecycle_reference : Option StringRef
  pub anti_abuse_continuity_reference : Option StringRef
  pub safety_case_reference : Option StringRef
  pub evidence_level_reference : Option StringRef
  pub audit_reference : Option StringRef
  pub reason_fact : Option StringRef
  pub fact_idempotency_key : Option StringRef
  pub evidence_posture : Option EvidencePosture
  pub reviewability_posture : Option ReviewabilityPosture
  pub retention_posture : Option RetentionPosture
  pub authority_posture : SocialTrustAuthorityPosture
  pub boundary_posture : C2BoundedPromiseReliabilityBoundaryPosture

pub data C2BoundedPromiseReliabilityRejection : Type 0 where
  rejected_source_fact :
      RejectedC2BoundedPromiseReliabilitySourceFact → C2BoundedPromiseReliabilityRejection
  source_mutation_mismatch :
      C2BoundedPromiseReliabilitySourceFact
      → C2BoundedPromiseReliabilityMutationFact
      → C2BoundedPromiseReliabilityMutationFact
      → C2BoundedPromiseReliabilityRejection
  boundary_unresolved :
      C2BoundedPromiseReliabilityBoundaryIntersection → C2BoundedPromiseReliabilityRejection
  unknown_source_fact unknown_mutation_fact : C2BoundedPromiseReliabilityRejection
  projection_only_authority missing_review_required_boundary_intersection :
      C2BoundedPromiseReliabilityRejection
  missing_writer_source_reference missing_promise_reference : C2BoundedPromiseReliabilityRejection
  missing_promise_terms_reference missing_consent_at_formation_reference :
      C2BoundedPromiseReliabilityRejection
  missing_consent_at_resolution_reference missing_block_withdrawal_state_reference :
      C2BoundedPromiseReliabilityRejection
  missing_age_assurance_state_reference missing_legal_hold_intersection_reference :
      C2BoundedPromiseReliabilityRejection
  missing_critical_harm_case_reference missing_account_lifecycle_reference :
      C2BoundedPromiseReliabilityRejection
  missing_anti_abuse_continuity_reference missing_safety_case_reference :
      C2BoundedPromiseReliabilityRejection
  missing_evidence_level_reference missing_audit_reference : C2BoundedPromiseReliabilityRejection
  missing_reason_fact missing_fact_idempotency_key : C2BoundedPromiseReliabilityRejection
  missing_evidence_posture missing_reviewability_posture : C2BoundedPromiseReliabilityRejection
  missing_retention_posture : C2BoundedPromiseReliabilityRejection

pub data C2BoundedPromiseReliabilityMutationDecision : Type 0 where
  persist :
      C2BoundedPromiseReliabilitySourceFact
      → C2BoundedPromiseReliabilityMutationFact
      → C2BoundedPromiseReliabilityMutationDirection
      → C2BoundedPromiseReliabilityMutationMagnitude
      → C2BoundedPromiseReliabilityMutationDecision
  reject : C2BoundedPromiseReliabilityRejection → C2BoundedPromiseReliabilityMutationDecision

unfoldable pub rejection_code : C2BoundedPromiseReliabilityRejection → String
rejection_code (C2BoundedPromiseReliabilityRejection.rejected_source_fact a) =
    "rejected_source_fact"
rejection_code C2BoundedPromiseReliabilityRejection.unknown_source_fact = "unknown_source_fact"
rejection_code C2BoundedPromiseReliabilityRejection.unknown_mutation_fact = "unknown_mutation_fact"
rejection_code (C2BoundedPromiseReliabilityRejection.source_mutation_mismatch a b c) =
    "source_mutation_mismatch"
rejection_code C2BoundedPromiseReliabilityRejection.projection_only_authority =
    "projection_only_authority"
rejection_code C2BoundedPromiseReliabilityRejection.missing_review_required_boundary_intersection =
    "missing_review_required_boundary_intersection"
rejection_code (C2BoundedPromiseReliabilityRejection.boundary_unresolved a) = "boundary_unresolved"
rejection_code C2BoundedPromiseReliabilityRejection.missing_writer_source_reference =
    "missing_writer_source_reference"
rejection_code C2BoundedPromiseReliabilityRejection.missing_promise_reference =
    "missing_promise_reference"
rejection_code C2BoundedPromiseReliabilityRejection.missing_promise_terms_reference =
    "missing_promise_terms_reference"
rejection_code C2BoundedPromiseReliabilityRejection.missing_consent_at_formation_reference =
    "missing_consent_at_formation_reference"
rejection_code C2BoundedPromiseReliabilityRejection.missing_consent_at_resolution_reference =
    "missing_consent_at_resolution_reference"
rejection_code C2BoundedPromiseReliabilityRejection.missing_block_withdrawal_state_reference =
    "missing_block_withdrawal_state_reference"
rejection_code C2BoundedPromiseReliabilityRejection.missing_age_assurance_state_reference =
    "missing_age_assurance_state_reference"
rejection_code C2BoundedPromiseReliabilityRejection.missing_legal_hold_intersection_reference =
    "missing_legal_hold_intersection_reference"
rejection_code C2BoundedPromiseReliabilityRejection.missing_critical_harm_case_reference =
    "missing_critical_harm_case_reference"
rejection_code C2BoundedPromiseReliabilityRejection.missing_account_lifecycle_reference =
    "missing_account_lifecycle_reference"
rejection_code C2BoundedPromiseReliabilityRejection.missing_anti_abuse_continuity_reference =
    "missing_anti_abuse_continuity_reference"
rejection_code C2BoundedPromiseReliabilityRejection.missing_safety_case_reference =
    "missing_safety_case_reference"
rejection_code C2BoundedPromiseReliabilityRejection.missing_evidence_level_reference =
    "missing_evidence_level_reference"
rejection_code C2BoundedPromiseReliabilityRejection.missing_audit_reference =
    "missing_audit_reference"
rejection_code C2BoundedPromiseReliabilityRejection.missing_reason_fact = "missing_reason_fact"
rejection_code C2BoundedPromiseReliabilityRejection.missing_fact_idempotency_key =
    "missing_fact_idempotency_key"
rejection_code C2BoundedPromiseReliabilityRejection.missing_evidence_posture =
    "missing_evidence_posture"
rejection_code C2BoundedPromiseReliabilityRejection.missing_reviewability_posture =
    "missing_reviewability_posture"
rejection_code C2BoundedPromiseReliabilityRejection.missing_retention_posture =
    "missing_retention_posture"

abbrev pub kind : C2BoundedPromiseReliabilityMutationDecision → String
kind (C2BoundedPromiseReliabilityMutationDecision.persist source mutation direction magnitude) =
    "persist"
kind (C2BoundedPromiseReliabilityMutationDecision.reject rejection) = "rejected"

unfoldable pub rejection_reason_code : C2BoundedPromiseReliabilityMutationDecision → Option String
unfolding rejection_code
rejection_reason_code
      (C2BoundedPromiseReliabilityMutationDecision.persist source mutation direction magnitude) =
    none
rejection_reason_code (C2BoundedPromiseReliabilityMutationDecision.reject rejection) =
    some (rejection_code rejection)
