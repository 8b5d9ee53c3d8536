-- ===== src/SocialTrust/Mutation/Faults.antt =====
-- apps/backend/crates/social-trust-domain/src/lib.rs: what a rejected proposal lacks.
use pi_musubi_core.Prelude.{◌≡◌, ◌≢◌, refl, false, none, arith, nat_eq, string_eq}
use pi_musubi_core.SocialTrust.References.{
  is_some_and, SocialTrustAuthorityPosture, class_text, Missing, given_lem, classified_lem,
}
use pi_musubi_core.SocialTrust.Facts.{
  C2BoundedPromiseReliabilitySourceFact, C2BoundedPromiseReliabilityMutationFact,
  C2BoundedPromiseReliabilitySourceFactCandidate, C2BoundedPromiseReliabilityMutationFactCandidate,
  expected_mutation,
}
use pi_musubi_core.SocialTrust.Boundary.{
  C2BoundedPromiseReliabilityBoundaryPosture, source_fact_eq, mutation_fact_eq,
}
use pi_musubi_core.SocialTrust.Proposal.{
  ProposedC2BoundedPromiseReliabilityMutationFact, C2BoundedPromiseReliabilityMutationDecision,
  C2BoundedPromiseReliabilityRejection,
}
use pi_musubi_core.SocialTrust.Mutation.{
  decide_references, decide_boundary, decide_facts, decide_requested,
  decide_c2_bounded_promise_reliability_mutation,
}

-- What a rejection says is wrong with the proposal.
abbrev pub Fault :
    ProposedC2BoundedPromiseReliabilityMutationFact → C2BoundedPromiseReliabilityRejection → Type 0
Fault p C2BoundedPromiseReliabilityRejection.missing_writer_source_reference =
    Missing p.writer_source_reference
Fault p C2BoundedPromiseReliabilityRejection.missing_promise_reference = Missing p.promise_reference
Fault p C2BoundedPromiseReliabilityRejection.missing_promise_terms_reference =
    Missing p.promise_terms_reference
Fault p C2BoundedPromiseReliabilityRejection.missing_consent_at_formation_reference =
    Missing p.consent_at_formation_reference
Fault p C2BoundedPromiseReliabilityRejection.missing_consent_at_resolution_reference =
    Missing p.consent_at_resolution_reference
Fault p C2BoundedPromiseReliabilityRejection.missing_block_withdrawal_state_reference =
    Missing p.block_withdrawal_state_reference
Fault p C2BoundedPromiseReliabilityRejection.missing_age_assurance_state_reference =
    Missing p.age_assurance_state_reference
Fault p C2BoundedPromiseReliabilityRejection.missing_legal_hold_intersection_reference =
    Missing p.legal_hold_intersection_reference
Fault p C2BoundedPromiseReliabilityRejection.missing_critical_harm_case_reference =
    Missing p.critical_harm_case_reference
Fault p C2BoundedPromiseReliabilityRejection.missing_account_lifecycle_reference =
    Missing p.account_lifecycle_reference
Fault p C2BoundedPromiseReliabilityRejection.missing_anti_abuse_continuity_reference =
    Missing p.anti_abuse_continuity_reference
Fault p C2BoundedPromiseReliabilityRejection.missing_safety_case_reference =
    Missing p.safety_case_reference
Fault p C2BoundedPromiseReliabilityRejection.missing_evidence_level_reference =
    Missing p.evidence_level_reference
Fault p C2BoundedPromiseReliabilityRejection.missing_audit_reference = Missing p.audit_reference
Fault p C2BoundedPromiseReliabilityRejection.missing_reason_fact = Missing p.reason_fact
Fault p C2BoundedPromiseReliabilityRejection.missing_fact_idempotency_key =
    Missing p.fact_idempotency_key
Fault p C2BoundedPromiseReliabilityRejection.missing_evidence_posture = p.evidence_posture ≡ none
Fault p C2BoundedPromiseReliabilityRejection.missing_reviewability_posture =
    p.reviewability_posture ≡ none
Fault p C2BoundedPromiseReliabilityRejection.missing_retention_posture =
    is_some_and p.retention_posture class_text ≡ false
Fault p (C2BoundedPromiseReliabilityRejection.rejected_source_fact source) =
    p.source_fact ≡ C2BoundedPromiseReliabilitySourceFactCandidate.rejected source
Fault p C2BoundedPromiseReliabilityRejection.unknown_source_fact =
    p.source_fact ≡ C2BoundedPromiseReliabilitySourceFactCandidate.unknown
Fault p C2BoundedPromiseReliabilityRejection.unknown_mutation_fact =
    p.requested_mutation_fact ≡ C2BoundedPromiseReliabilityMutationFactCandidate.unknown
Fault p (C2BoundedPromiseReliabilityRejection.source_mutation_mismatch source requested expected) =
    (p.source_fact ≡ C2BoundedPromiseReliabilitySourceFactCandidate.accepted source)
    × (p.requested_mutation_fact
        ≡ C2BoundedPromiseReliabilityMutationFactCandidate.accepted requested)
    × (expected ≡ expected_mutation source)
    × (requested ≢ expected)
Fault p C2BoundedPromiseReliabilityRejection.projection_only_authority =
    p.authority_posture ≡ SocialTrustAuthorityPosture.projection_only
Fault p (C2BoundedPromiseReliabilityRejection.boundary_unresolved boundary) =
    (p.boundary_posture ≡ C2BoundedPromiseReliabilityBoundaryPosture.unresolved boundary)
    × (p.source_fact
        ≢ C2BoundedPromiseReliabilitySourceFactCandidate.accepted
            C2BoundedPromiseReliabilitySourceFact.review_required_boundary_intersection)
Fault p C2BoundedPromiseReliabilityRejection.missing_review_required_boundary_intersection =
    (p.boundary_posture ≡ C2BoundedPromiseReliabilityBoundaryPosture.clear)
    × (p.source_fact
        ≡ C2BoundedPromiseReliabilitySourceFactCandidate.accepted
            C2BoundedPromiseReliabilitySourceFact.review_required_boundary_intersection)

references_rejected :
    (p : ProposedC2BoundedPromiseReliabilityMutationFact)
    (s : C2BoundedPromiseReliabilitySourceFact) (m : C2BoundedPromiseReliabilityMutationFact)
    (r : C2BoundedPromiseReliabilityRejection)
    → decide_references p s m ≡ C2BoundedPromiseReliabilityMutationDecision.reject r
    → Fault p r
unfolding decide_references
references_rejected p s m r h = ground (
  arith,
  given_lem p.writer_source_reference,
  given_lem p.promise_reference,
  given_lem p.promise_terms_reference,
  given_lem p.consent_at_formation_reference,
  given_lem p.consent_at_resolution_reference,
  given_lem p.block_withdrawal_state_reference,
  given_lem p.age_assurance_state_reference,
  given_lem p.legal_hold_intersection_reference,
  given_lem p.critical_harm_case_reference,
  given_lem p.account_lifecycle_reference,
  given_lem p.anti_abuse_continuity_reference,
  given_lem p.safety_case_reference,
  given_lem p.evidence_level_reference,
  given_lem p.audit_reference,
  given_lem p.reason_fact,
  given_lem p.fact_idempotency_key,
  classified_lem p.retention_posture,
)

boundary_rejected :
    (p : ProposedC2BoundedPromiseReliabilityMutationFact)
    (s : C2BoundedPromiseReliabilitySourceFact) (m : C2BoundedPromiseReliabilityMutationFact)
    (r : C2BoundedPromiseReliabilityRejection)
    → p.source_fact ≡ C2BoundedPromiseReliabilitySourceFactCandidate.accepted s
    → decide_boundary p s m ≡ C2BoundedPromiseReliabilityMutationDecision.reject r
    → Fault p r
unfolding decide_boundary
boundary_rejected p s m r e h = ground (arith, references_rejected p s m r)

facts_rejected :
    (p : ProposedC2BoundedPromiseReliabilityMutationFact)
    (s : C2BoundedPromiseReliabilitySourceFact) (m : C2BoundedPromiseReliabilityMutationFact)
    (r : C2BoundedPromiseReliabilityRejection)
    → p.source_fact ≡ C2BoundedPromiseReliabilitySourceFactCandidate.accepted s
    → p.requested_mutation_fact ≡ C2BoundedPromiseReliabilityMutationFactCandidate.accepted m
    → decide_facts p s m ≡ C2BoundedPromiseReliabilityMutationDecision.reject r
    → Fault p r
unfolding decide_facts
facts_rejected p s m r e f h =
    ground
      (arith, boundary_rejected p s m r e, (mutation_fact_eq.decides m (expected_mutation s)).1)

decision_rejected :
    (p : ProposedC2BoundedPromiseReliabilityMutationFact) (r : C2BoundedPromiseReliabilityRejection)
    (o : C2BoundedPromiseReliabilitySourceFactCandidate)
    (q : C2BoundedPromiseReliabilityMutationFactCandidate)
    → p.source_fact ≡ o
    → p.requested_mutation_fact ≡ q
    → decide_c2_bounded_promise_reliability_mutation p
      ≡ C2BoundedPromiseReliabilityMutationDecision.reject r
    → Fault p r
unfolding decide_c2_bounded_promise_reliability_mutation decide_requested
decision_rejected p r (C2BoundedPromiseReliabilitySourceFactCandidate.accepted s)
      (C2BoundedPromiseReliabilityMutationFactCandidate.accepted m) e f h =
    facts_rejected p s m r e f (rw (e, f) at h)
decision_rejected p r _ _ e f h = ground arith

-- A rejected proposal has the fault that its rejection names: the source or the requested fact
-- that is not accepted, the two facts that do not agree, the projection's authority, the boundary
-- that stands open, or the reference that is absent or blank.
pub mutation_rejection :
    (p : ProposedC2BoundedPromiseReliabilityMutationFact) (r : C2BoundedPromiseReliabilityRejection)
    → decide_c2_bounded_promise_reliability_mutation p
      ≡ C2BoundedPromiseReliabilityMutationDecision.reject r
    → Fault p r
mutation_rejection p r h = decision_rejected p r p.source_fact p.requested_mutation_fact refl refl h
