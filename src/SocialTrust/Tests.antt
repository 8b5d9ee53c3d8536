-- ===== src/SocialTrust/Tests.antt =====
-- Decisions of the Social Trust crate at concrete inputs.
use pi_musubi_core.Prelude.{◌≡◌, ◌≢◌, ◌↔◌, refl, some, arith, Option}
use pi_musubi_core.Prelude.Text.{trim, trim_start, is_whitespace}
use pi_musubi_core.SocialTrust.References.{
  StringRef, is_present, EvidencePosture, ReviewabilityPosture, RetentionPosture,
  DurableIdempotencyPosture, SocialTrustAuthorityPosture,
}
use pi_musubi_core.SocialTrust.Sources.{SocialTrustSourceCategory}
use pi_musubi_core.SocialTrust.Facts.{
  C2BoundedPromiseReliabilitySourceFact, C2BoundedPromiseReliabilityMutationFact,
  C2BoundedPromiseReliabilitySourceFactCandidate, C2BoundedPromiseReliabilityMutationFactCandidate,
  C2BoundedPromiseReliabilityMutationDirection, C2BoundedPromiseReliabilityMutationMagnitude,
  direction, magnitude,
}
use pi_musubi_core.SocialTrust.Boundary.{C2BoundedPromiseReliabilityBoundaryPosture}
use pi_musubi_core.SocialTrust.Intake.{
  ProposedSocialTrustMutationAttempt, SocialTrustIntakeDecision, SocialTrustIntakeRejection,
  decide_social_trust_intake, decide_candidate,
}
use pi_musubi_core.SocialTrust.Intake.Admissible.{
  IsAdmissible as IsIntakeAdmissible, intake_candidate,
}
use pi_musubi_core.SocialTrust.Proposal.{
  ProposedC2BoundedPromiseReliabilityMutationFact, C2BoundedPromiseReliabilityMutationDecision,
  C2BoundedPromiseReliabilityRejection,
}
use pi_musubi_core.SocialTrust.Mutation.{
  decide_references, decide_boundary, decide_facts, decide_requested,
  decide_c2_bounded_promise_reliability_mutation,
}
use pi_musubi_core.SocialTrust.Mutation.Admissible.{IsAdmissible, mutation_persisted}
use pi_musubi_core.SocialTrust.Mutation.Faults.{Fault, mutation_rejection}
use pi_musubi_core.SocialTrust.Consumption.{
  C2CategoricalFactConsumptionTarget, C2CategoricalFactConsumptionRejection,
  C2CategoricalFactConsumptionAttempt, C2CategoricalFactConsumptionDecision,
  decide_c2_categorical_fact_consumption,
}
use pi_musubi_core.SocialTrust.Consumption.Allowed.{IsAllowed, consumption-IsAllowed}
use pi_musubi_core.SocialTrust.Scope.Positive.{Accepts, first_positive_source}
use pi_musubi_core.SocialTrust.Readback.{persisted_is_consumed}

abbrev reference : StringRef
reference = record { text = " promise 7 " }

abbrev blank : StringRef
blank = record { text = "   " }

abbrev given : Option StringRef
given = some reference

abbrev intake_attempt : ProposedSocialTrustMutationAttempt
intake_attempt = record {
  source_category = SocialTrustSourceCategory.writer_source_candidate;
  writer_source_reference = given;
  reason_fact = some blank;
  idempotency_posture = some (DurableIdempotencyPosture.durable_dedupe_key reference);
  evidence_posture = some EvidencePosture.bounded;
  reviewability_posture = some ReviewabilityPosture.reviewable;
  retention_posture = some (RetentionPosture.classified reference);
  authority_posture = SocialTrustAuthorityPosture.writer_truth_only;
}

abbrev proposal : ProposedC2BoundedPromiseReliabilityMutationFact
proposal = record {
  source_fact =
      C2BoundedPromiseReliabilitySourceFactCandidate.accepted
        C2BoundedPromiseReliabilitySourceFact.completed_as_agreed;
  requested_mutation_fact =
      C2BoundedPromiseReliabilityMutationFactCandidate.accepted
        C2BoundedPromiseReliabilityMutationFact.bounded_promise_reliability_positive;
  writer_source_reference = given;
  promise_reference = given;
  promise_terms_reference = given;
  consent_at_formation_reference = given;
  consent_at_resolution_reference = given;
  block_withdrawal_state_reference = given;
  age_assurance_state_reference = given;
  legal_hold_intersection_reference = given;
  critical_harm_case_reference = given;
  account_lifecycle_reference = given;
  anti_abuse_continuity_reference = given;
  safety_case_reference = given;
  evidence_level_reference = given;
  audit_reference = given;
  reason_fact = given;
  fact_idempotency_key = given;
  evidence_posture = some EvidencePosture.bounded;
  reviewability_posture = some ReviewabilityPosture.reviewable;
  retention_posture = some (RetentionPosture.classified reference);
  authority_posture = SocialTrustAuthorityPosture.writer_truth_only;
  boundary_posture = C2BoundedPromiseReliabilityBoundaryPosture.clear;
}

abbrev unaudited : ProposedC2BoundedPromiseReliabilityMutationFact
unaudited = record {
  source_fact =
      C2BoundedPromiseReliabilitySourceFactCandidate.accepted
        C2BoundedPromiseReliabilitySourceFact.completed_as_agreed;
  requested_mutation_fact =
      C2BoundedPromiseReliabilityMutationFactCandidate.accepted
        C2BoundedPromiseReliabilityMutationFact.bounded_promise_reliability_positive;
  writer_source_reference = given;
  promise_reference = given;
  promise_terms_reference = given;
  consent_at_formation_reference = given;
  consent_at_resolution_reference = given;
  block_withdrawal_state_reference = given;
  age_assurance_state_reference = given;
  legal_hold_intersection_reference = given;
  critical_harm_case_reference = given;
  account_lifecycle_reference = given;
  anti_abuse_continuity_reference = given;
  safety_case_reference = given;
  evidence_level_reference = given;
  audit_reference = some blank;
  reason_fact = given;
  fact_idempotency_key = given;
  evidence_posture = some EvidencePosture.bounded;
  reviewability_posture = some ReviewabilityPosture.reviewable;
  retention_posture = some (RetentionPosture.classified reference);
  authority_posture = SocialTrustAuthorityPosture.writer_truth_only;
  boundary_posture = C2BoundedPromiseReliabilityBoundaryPosture.clear;
}

abbrev ranked : C2CategoricalFactConsumptionAttempt
ranked = record {
  source_fact = C2BoundedPromiseReliabilitySourceFact.completed_as_agreed;
  mutation_fact = C2BoundedPromiseReliabilityMutationFact.bounded_promise_reliability_positive;
  target = C2CategoricalFactConsumptionTarget.social_trust_rank;
  authority_posture = SocialTrustAuthorityPosture.writer_truth_only;
}

persists :
    decide_c2_bounded_promise_reliability_mutation proposal
    ≡ C2BoundedPromiseReliabilityMutationDecision.persist
        C2BoundedPromiseReliabilitySourceFact.completed_as_agreed
        C2BoundedPromiseReliabilityMutationFact.bounded_promise_reliability_positive
        C2BoundedPromiseReliabilityMutationDirection.positive
        C2BoundedPromiseReliabilityMutationMagnitude.categorical
unfolding decide_c2_bounded_promise_reliability_mutation decide_requested decide_facts
    decide_boundary decide_references is_present trim trim_start is_whitespace
persists = refl

is_unaudited :
    decide_c2_bounded_promise_reliability_mutation unaudited
    ≡ C2BoundedPromiseReliabilityMutationDecision.reject
        C2BoundedPromiseReliabilityRejection.missing_audit_reference
unfolding decide_c2_bounded_promise_reliability_mutation decide_requested decide_facts
    decide_boundary decide_references is_present trim trim_start is_whitespace
is_unaudited = refl

lacks_reason :
    decide_social_trust_intake intake_attempt
    ≡ SocialTrustIntakeDecision.reject SocialTrustIntakeRejection.missing_reason_fact
unfolding decide_social_trust_intake decide_candidate is_present trim trim_start is_whitespace
lacks_reason = refl

is_blocked :
    decide_c2_categorical_fact_consumption ranked
    ≡ C2CategoricalFactConsumptionDecision.reject (
        C2CategoricalFactConsumptionRejection.blocked_consumption_target
          C2CategoricalFactConsumptionTarget.social_trust_rank)
unfolding decide_c2_categorical_fact_consumption
is_blocked = refl

rank_is_not_internal :
    C2CategoricalFactConsumptionTarget.social_trust_rank
    ≢ C2CategoricalFactConsumptionTarget.internal_writer_fact_reference
rank_is_not_internal h = ground arith

intake_candidate_example :
    (decide_social_trust_intake intake_attempt
      ≡ SocialTrustIntakeDecision.candidate_for_writer_persistence)
    ↔ IsIntakeAdmissible intake_attempt
intake_candidate_example = intake_candidate intake_attempt

mutation_persisted_example :
    (decide_c2_bounded_promise_reliability_mutation proposal
      ≡ C2BoundedPromiseReliabilityMutationDecision.persist
          C2BoundedPromiseReliabilitySourceFact.completed_as_agreed
          C2BoundedPromiseReliabilityMutationFact.bounded_promise_reliability_positive
          C2BoundedPromiseReliabilityMutationDirection.positive
          C2BoundedPromiseReliabilityMutationMagnitude.categorical)
    ↔ (IsAdmissible proposal C2BoundedPromiseReliabilitySourceFact.completed_as_agreed
          C2BoundedPromiseReliabilityMutationFact.bounded_promise_reliability_positive
        × (C2BoundedPromiseReliabilityMutationDirection.positive
            ≡ direction
                C2BoundedPromiseReliabilityMutationFact.bounded_promise_reliability_positive)
        × (C2BoundedPromiseReliabilityMutationMagnitude.categorical
            ≡ magnitude
                C2BoundedPromiseReliabilityMutationFact.bounded_promise_reliability_positive))
mutation_persisted_example =
    mutation_persisted proposal C2BoundedPromiseReliabilitySourceFact.completed_as_agreed
      C2BoundedPromiseReliabilityMutationFact.bounded_promise_reliability_positive
      C2BoundedPromiseReliabilityMutationDirection.positive
      C2BoundedPromiseReliabilityMutationMagnitude.categorical

mutation_rejection_example :
    Fault unaudited C2BoundedPromiseReliabilityRejection.missing_audit_reference
mutation_rejection_example =
    mutation_rejection unaudited C2BoundedPromiseReliabilityRejection.missing_audit_reference
      is_unaudited

consumption-IsAllowed_example :
    (decide_c2_categorical_fact_consumption ranked
      ≡ C2CategoricalFactConsumptionDecision.allow_internal_writer_fact_reference
          C2BoundedPromiseReliabilitySourceFact.completed_as_agreed
          C2BoundedPromiseReliabilityMutationFact.bounded_promise_reliability_positive)
    ↔ (IsAllowed ranked
        × (C2BoundedPromiseReliabilitySourceFact.completed_as_agreed ≡ ranked.source_fact)
        × (C2BoundedPromiseReliabilityMutationFact.bounded_promise_reliability_positive
            ≡ ranked.mutation_fact))
consumption-IsAllowed_example =
    consumption-IsAllowed ranked C2BoundedPromiseReliabilitySourceFact.completed_as_agreed
      C2BoundedPromiseReliabilityMutationFact.bounded_promise_reliability_positive

first_positive_source_example :
    Accepts
      (C2BoundedPromiseReliabilitySourceFactCandidate.accepted
        C2BoundedPromiseReliabilitySourceFact.valid_excused_exit)
      C2BoundedPromiseReliabilitySourceFact.valid_excused_exit
    ↔ ((C2BoundedPromiseReliabilitySourceFactCandidate.accepted
            C2BoundedPromiseReliabilitySourceFact.valid_excused_exit
          ≡ C2BoundedPromiseReliabilitySourceFactCandidate.accepted
              C2BoundedPromiseReliabilitySourceFact.valid_excused_exit)
        × (C2BoundedPromiseReliabilityMutationDirection.no_effect
            ≡ C2BoundedPromiseReliabilityMutationDirection.positive))
first_positive_source_example =
    first_positive_source
      (C2BoundedPromiseReliabilitySourceFactCandidate.accepted
        C2BoundedPromiseReliabilitySourceFact.valid_excused_exit)
      C2BoundedPromiseReliabilitySourceFact.valid_excused_exit

persisted_is_consumed_example :
    decide_c2_categorical_fact_consumption (record {
      source_fact = C2BoundedPromiseReliabilitySourceFact.completed_as_agreed;
      mutation_fact = C2BoundedPromiseReliabilityMutationFact.bounded_promise_reliability_positive;
      target = C2CategoricalFactConsumptionTarget.internal_writer_fact_reference;
      authority_posture = SocialTrustAuthorityPosture.writer_truth_only;
    })
    ≡ C2CategoricalFactConsumptionDecision.allow_internal_writer_fact_reference
        C2BoundedPromiseReliabilitySourceFact.completed_as_agreed
        C2BoundedPromiseReliabilityMutationFact.bounded_promise_reliability_positive
persisted_is_consumed_example =
    persisted_is_consumed proposal C2BoundedPromiseReliabilitySourceFact.completed_as_agreed
      C2BoundedPromiseReliabilityMutationFact.bounded_promise_reliability_positive
      C2BoundedPromiseReliabilityMutationDirection.positive
      C2BoundedPromiseReliabilityMutationMagnitude.categorical persists
