-- ===== src/SocialTrust/Mutation.antt =====
-- apps/backend/crates/social-trust-domain/src/lib.rs:
-- `decide_c2_bounded_promise_reliability_mutation`, its guards in the order of the source.
pub mod References
pub mod Admissible
pub mod Faults
use pi_musubi_core.Prelude.{
  ℕ, String, ◌≡◌, ◌≢◌, refl, ap, sym, ◌∙◌, Bool, true, false, not, ◌&&◌, ◌||◌, Option, none, some,
  List, [], ◌∷◌, any, Result, ok, err, arith, PartialEq, ◌==◌, ◌↔◌, ◌⊎◌, inl, inr, nat_eq,
  string_eq, if◌then◌else◌,
}
use pi_musubi_core.SocialTrust.References.{
  StringRef, is_present, is_some_and, is_none, DurableIdempotencyPosture, RetentionPosture,
  EvidencePosture, ReviewabilityPosture, has_dedupe_key, has_class, SocialTrustAuthorityPosture,
  is_projection_only,
}
use pi_musubi_core.SocialTrust.Facts.{
  C2BoundedPromiseReliabilitySourceFact, C2BoundedPromiseReliabilityMutationFact,
  C2BoundedPromiseReliabilitySourceFactCandidate, C2BoundedPromiseReliabilityMutationFactCandidate,
  expected_mutation, direction, magnitude,
}
use pi_musubi_core.SocialTrust.Boundary.{
  C2BoundedPromiseReliabilityBoundaryPosture, source_fact_eq, mutation_fact_eq,
}
use pi_musubi_core.SocialTrust.Proposal.{
  ProposedC2BoundedPromiseReliabilityMutationFact, C2BoundedPromiseReliabilityMutationDecision,
  C2BoundedPromiseReliabilityRejection,
}

-- The guards on the references, and the decision they lead to.
unfoldable pub decide_references :
    ProposedC2BoundedPromiseReliabilityMutationFact
    → C2BoundedPromiseReliabilitySourceFact
    → C2BoundedPromiseReliabilityMutationFact
    → C2BoundedPromiseReliabilityMutationDecision
decide_references proposal source_fact requested_mutation =
    if not (is_some_and proposal.writer_source_reference is_present)
    then C2BoundedPromiseReliabilityMutationDecision.reject
        C2BoundedPromiseReliabilityRejection.missing_writer_source_reference
    else if not (is_some_and proposal.promise_reference is_present)
    then C2BoundedPromiseReliabilityMutationDecision.reject
        C2BoundedPromiseReliabilityRejection.missing_promise_reference
    else if not (is_some_and proposal.promise_terms_reference is_present)
    then C2BoundedPromiseReliabilityMutationDecision.reject
        C2BoundedPromiseReliabilityRejection.missing_promise_terms_reference
    else if not (is_some_and proposal.consent_at_formation_reference is_present)
    then C2BoundedPromiseReliabilityMutationDecision.reject
        C2BoundedPromiseReliabilityRejection.missing_consent_at_formation_reference
    else if not (is_some_and proposal.consent_at_resolution_reference is_present)
    then C2BoundedPromiseReliabilityMutationDecision.reject
        C2BoundedPromiseReliabilityRejection.missing_consent_at_resolution_reference
    else if not (is_some_and proposal.block_withdrawal_state_reference is_present)
    then C2BoundedPromiseReliabilityMutationDecision.reject
        C2BoundedPromiseReliabilityRejection.missing_block_withdrawal_state_reference
    else if not (is_some_and proposal.age_assurance_state_reference is_present)
    then C2BoundedPromiseReliabilityMutationDecision.reject
        C2BoundedPromiseReliabilityRejection.missing_age_assurance_state_reference
    else if not (is_some_and proposal.legal_hold_intersection_reference is_present)
    then C2BoundedPromiseReliabilityMutationDecision.reject
        C2BoundedPromiseReliabilityRejection.missing_legal_hold_intersection_reference
    else if not (is_some_and proposal.critical_harm_case_reference is_present)
    then C2BoundedPromiseReliabilityMutationDecision.reject
        C2BoundedPromiseReliabilityRejection.missing_critical_harm_case_reference
    else if not (is_some_and proposal.account_lifecycle_reference is_present)
    then C2BoundedPromiseReliabilityMutationDecision.reject
        C2BoundedPromiseReliabilityRejection.missing_account_lifecycle_reference
    else if not (is_some_and proposal.anti_abuse_continuity_reference is_present)
    then C2BoundedPromiseReliabilityMutationDecision.reject
        C2BoundedPromiseReliabilityRejection.missing_anti_abuse_continuity_reference
    else if not (is_some_and proposal.safety_case_reference is_present)
    then C2BoundedPromiseReliabilityMutationDecision.reject
        C2BoundedPromiseReliabilityRejection.missing_safety_case_reference
    else if not (is_some_and proposal.evidence_level_reference is_present)
    then C2BoundedPromiseReliabilityMutationDecision.reject
        C2BoundedPromiseReliabilityRejection.missing_evidence_level_reference
    else if not (is_some_and proposal.audit_reference is_present)
    then C2BoundedPromiseReliabilityMutationDecision.reject
        C2BoundedPromiseReliabilityRejection.missing_audit_reference
    else if not (is_some_and proposal.reason_fact is_present)
    then C2BoundedPromiseReliabilityMutationDecision.reject
        C2BoundedPromiseReliabilityRejection.missing_reason_fact
    else if not (is_some_and proposal.fact_idempotency_key is_present)
    then C2BoundedPromiseReliabilityMutationDecision.reject
        C2BoundedPromiseReliabilityRejection.missing_fact_idempotency_key
    else if is_none proposal.evidence_posture
    then C2BoundedPromiseReliabilityMutationDecision.reject
        C2BoundedPromiseReliabilityRejection.missing_evidence_posture
    else if is_none proposal.reviewability_posture
    then C2BoundedPromiseReliabilityMutationDecision.reject
        C2BoundedPromiseReliabilityRejection.missing_reviewability_posture
    else if not (is_some_and proposal.retention_posture has_class)
    then C2BoundedPromiseReliabilityMutationDecision.reject
        C2BoundedPromiseReliabilityRejection.missing_retention_posture
    else C2BoundedPromiseReliabilityMutationDecision.persist source_fact requested_mutation
        (direction requested_mutation) (magnitude requested_mutation)

-- The match on the boundary posture.
unfoldable pub decide_boundary :
    ProposedC2BoundedPromiseReliabilityMutationFact
    → C2BoundedPromiseReliabilitySourceFact
    → C2BoundedPromiseReliabilityMutationFact
    → C2BoundedPromiseReliabilityMutationDecision
unfolding decide_references
decide_boundary proposal source_fact requested_mutation =
    let review =
      source_fact == C2BoundedPromiseReliabilitySourceFact.review_required_boundary_intersection in
    let next = decide_references proposal source_fact requested_mutation in
    elim proposal.boundary_posture [
      | C2BoundedPromiseReliabilityBoundaryPosture.unresolved boundary ↦
          if not review
          then C2BoundedPromiseReliabilityMutationDecision.reject
              (C2BoundedPromiseReliabilityRejection.boundary_unresolved boundary)
          else next
      | C2BoundedPromiseReliabilityBoundaryPosture.clear ↦
          if review
          then C2BoundedPromiseReliabilityMutationDecision.reject
              C2BoundedPromiseReliabilityRejection.missing_review_required_boundary_intersection
          else next
    ]

-- The guards on the facts and on the authority.
unfoldable pub decide_facts :
    ProposedC2BoundedPromiseReliabilityMutationFact
    → C2BoundedPromiseReliabilitySourceFact
    → C2BoundedPromiseReliabilityMutationFact
    → C2BoundedPromiseReliabilityMutationDecision
unfolding decide_boundary
decide_facts proposal source_fact requested_mutation =
    let expected = expected_mutation source_fact in
    if not (requested_mutation == expected)
    then C2BoundedPromiseReliabilityMutationDecision.reject (
        C2BoundedPromiseReliabilityRejection.source_mutation_mismatch source_fact requested_mutation
          expected)
    else if is_projection_only proposal.authority_posture
    then C2BoundedPromiseReliabilityMutationDecision.reject
        C2BoundedPromiseReliabilityRejection.projection_only_authority
    else decide_boundary proposal source_fact requested_mutation

unfoldable pub decide_requested :
    ProposedC2BoundedPromiseReliabilityMutationFact
    → C2BoundedPromiseReliabilitySourceFact
    → C2BoundedPromiseReliabilityMutationDecision
unfolding decide_facts
decide_requested proposal source_fact = elim proposal.requested_mutation_fact [
  | C2BoundedPromiseReliabilityMutationFactCandidate.accepted mutation ↦
      decide_facts proposal source_fact mutation
  | C2BoundedPromiseReliabilityMutationFactCandidate.unknown ↦
      C2BoundedPromiseReliabilityMutationDecision.reject
        C2BoundedPromiseReliabilityRejection.unknown_mutation_fact
]

unfoldable pub decide_c2_bounded_promise_reliability_mutation :
    ProposedC2BoundedPromiseReliabilityMutationFact → C2BoundedPromiseReliabilityMutationDecision
unfolding decide_requested
decide_c2_bounded_promise_reliability_mutation proposal = elim proposal.source_fact [
  | C2BoundedPromiseReliabilitySourceFactCandidate.accepted source ↦
      decide_requested proposal source
  | C2BoundedPromiseReliabilitySourceFactCandidate.rejected source ↦
      C2BoundedPromiseReliabilityMutationDecision.reject
        (C2BoundedPromiseReliabilityRejection.rejected_source_fact source)
  | C2BoundedPromiseReliabilitySourceFactCandidate.unknown ↦
      C2BoundedPromiseReliabilityMutationDecision.reject
        C2BoundedPromiseReliabilityRejection.unknown_source_fact
]
