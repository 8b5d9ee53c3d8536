-- ===== src/SocialTrust/Facts.antt =====
-- apps/backend/crates/social-trust-domain/src/lib.rs: the facts of bounded promise reliability.
use pi_musubi_core.Prelude.{String, nat_eq, string_eq}
use pi_musubi_core.SocialTrust.Rejected.{
  RejectedC2BoundedPromiseReliabilitySourceFact, rejected_code,
}

pub data C2BoundedPromiseReliabilitySourceFact : Type 0 where
  completed_as_agreed : C2BoundedPromiseReliabilitySourceFact
  completed_after_governed_review : C2BoundedPromiseReliabilitySourceFact
  valid_excused_exit source_fact_corrected : C2BoundedPromiseReliabilitySourceFact
  review_required_boundary_intersection : C2BoundedPromiseReliabilitySourceFact
  source_scope_limited_after_review : C2BoundedPromiseReliabilitySourceFact
  freeze_or_narrowing_reversed_after_review : C2BoundedPromiseReliabilitySourceFact

unfoldable pub source_fact_code : C2BoundedPromiseReliabilitySourceFact → String
source_fact_code C2BoundedPromiseReliabilitySourceFact.completed_as_agreed =
    "promise_reliability_outcome.completed_as_agreed"
source_fact_code C2BoundedPromiseReliabilitySourceFact.completed_after_governed_review =
    "promise_reliability_outcome.completed_after_governed_review"
source_fact_code C2BoundedPromiseReliabilitySourceFact.valid_excused_exit =
    "promise_reliability_outcome.valid_excused_exit"
source_fact_code C2BoundedPromiseReliabilitySourceFact.source_fact_corrected =
    "promise_reliability_outcome.source_fact_corrected"
source_fact_code C2BoundedPromiseReliabilitySourceFact.review_required_boundary_intersection =
    "promise_reliability_outcome.review_required_boundary_intersection"
source_fact_code C2BoundedPromiseReliabilitySourceFact.source_scope_limited_after_review =
    "promise_reliability_outcome.source_scope_limited_after_review"
source_fact_code C2BoundedPromiseReliabilitySourceFact.freeze_or_narrowing_reversed_after_review =
    "promise_reliability_outcome.freeze_or_narrowing_reversed_after_review"

pub data C2BoundedPromiseReliabilityMutationFact : Type 0 where
  bounded_promise_reliability_positive : C2BoundedPromiseReliabilityMutationFact
  no_effect_valid_excused_exit : C2BoundedPromiseReliabilityMutationFact
  bounded_promise_reliability_correction : C2BoundedPromiseReliabilityMutationFact
  bounded_promise_reliability_freeze : C2BoundedPromiseReliabilityMutationFact
  bounded_promise_reliability_narrowing : C2BoundedPromiseReliabilityMutationFact
  bounded_promise_reliability_recovery : C2BoundedPromiseReliabilityMutationFact

unfoldable pub mutation_fact_code : C2BoundedPromiseReliabilityMutationFact → String
mutation_fact_code C2BoundedPromiseReliabilityMutationFact.bounded_promise_reliability_positive =
    "social_trust_mutation.bounded_promise_reliability_positive"
mutation_fact_code C2BoundedPromiseReliabilityMutationFact.no_effect_valid_excused_exit =
    "social_trust_mutation.no_effect_valid_excused_exit"
mutation_fact_code C2BoundedPromiseReliabilityMutationFact.bounded_promise_reliability_correction =
    "social_trust_mutation.bounded_promise_reliability_correction"
mutation_fact_code C2BoundedPromiseReliabilityMutationFact.bounded_promise_reliability_freeze =
    "social_trust_mutation.bounded_promise_reliability_freeze"
mutation_fact_code C2BoundedPromiseReliabilityMutationFact.bounded_promise_reliability_narrowing =
    "social_trust_mutation.bounded_promise_reliability_narrowing"
mutation_fact_code C2BoundedPromiseReliabilityMutationFact.bounded_promise_reliability_recovery =
    "social_trust_mutation.bounded_promise_reliability_recovery"

pub data C2BoundedPromiseReliabilityMutationDirection : Type 0 where
  positive no_effect correction : C2BoundedPromiseReliabilityMutationDirection
  freeze narrowing recovery : C2BoundedPromiseReliabilityMutationDirection

unfoldable pub direction_code : C2BoundedPromiseReliabilityMutationDirection → String
direction_code C2BoundedPromiseReliabilityMutationDirection.positive = "positive"
direction_code C2BoundedPromiseReliabilityMutationDirection.no_effect = "no_effect"
direction_code C2BoundedPromiseReliabilityMutationDirection.correction = "correction"
direction_code C2BoundedPromiseReliabilityMutationDirection.freeze = "freeze"
direction_code C2BoundedPromiseReliabilityMutationDirection.narrowing = "narrowing"
direction_code C2BoundedPromiseReliabilityMutationDirection.recovery = "recovery"

pub data C2BoundedPromiseReliabilityMutationMagnitude : Type 0 where
  categorical no_effect : C2BoundedPromiseReliabilityMutationMagnitude
  forward_correction : C2BoundedPromiseReliabilityMutationMagnitude
  temporary_suppression : C2BoundedPromiseReliabilityMutationMagnitude
  scope_limited_restriction : C2BoundedPromiseReliabilityMutationMagnitude
  eligibility_restoration : C2BoundedPromiseReliabilityMutationMagnitude

unfoldable pub magnitude_code : C2BoundedPromiseReliabilityMutationMagnitude → String
magnitude_code C2BoundedPromiseReliabilityMutationMagnitude.categorical = "categorical"
magnitude_code C2BoundedPromiseReliabilityMutationMagnitude.no_effect = "no_effect"
magnitude_code C2BoundedPromiseReliabilityMutationMagnitude.forward_correction =
    "forward_correction"
magnitude_code C2BoundedPromiseReliabilityMutationMagnitude.temporary_suppression =
    "temporary_suppression"
magnitude_code C2BoundedPromiseReliabilityMutationMagnitude.scope_limited_restriction =
    "scope_limited_restriction"
magnitude_code C2BoundedPromiseReliabilityMutationMagnitude.eligibility_restoration =
    "eligibility_restoration"

abbrev pub expected_mutation :
    C2BoundedPromiseReliabilitySourceFact → C2BoundedPromiseReliabilityMutationFact
expected_mutation C2BoundedPromiseReliabilitySourceFact.completed_as_agreed =
    C2BoundedPromiseReliabilityMutationFact.bounded_promise_reliability_positive
expected_mutation C2BoundedPromiseReliabilitySourceFact.completed_after_governed_review =
    C2BoundedPromiseReliabilityMutationFact.bounded_promise_reliability_positive
expected_mutation C2BoundedPromiseReliabilitySourceFact.valid_excused_exit =
    C2BoundedPromiseReliabilityMutationFact.no_effect_valid_excused_exit
expected_mutation C2BoundedPromiseReliabilitySourceFact.source_fact_corrected =
    C2BoundedPromiseReliabilityMutationFact.bounded_promise_reliability_correction
expected_mutation C2BoundedPromiseReliabilitySourceFact.review_required_boundary_intersection =
    C2BoundedPromiseReliabilityMutationFact.bounded_promise_reliability_freeze
expected_mutation C2BoundedPromiseReliabilitySourceFact.source_scope_limited_after_review =
    C2BoundedPromiseReliabilityMutationFact.bounded_promise_reliability_narrowing
expected_mutation C2BoundedPromiseReliabilitySourceFact.freeze_or_narrowing_reversed_after_review =
    C2BoundedPromiseReliabilityMutationFact.bounded_promise_reliability_recovery

abbrev pub direction :
    C2BoundedPromiseReliabilityMutationFact → C2BoundedPromiseReliabilityMutationDirection
direction C2BoundedPromiseReliabilityMutationFact.bounded_promise_reliability_positive =
    C2BoundedPromiseReliabilityMutationDirection.positive
direction C2BoundedPromiseReliabilityMutationFact.no_effect_valid_excused_exit =
    C2BoundedPromiseReliabilityMutationDirection.no_effect
direction C2BoundedPromiseReliabilityMutationFact.bounded_promise_reliability_correction =
    C2BoundedPromiseReliabilityMutationDirection.correction
direction C2BoundedPromiseReliabilityMutationFact.bounded_promise_reliability_freeze =
    C2BoundedPromiseReliabilityMutationDirection.freeze
direction C2BoundedPromiseReliabilityMutationFact.bounded_promise_reliability_narrowing =
    C2BoundedPromiseReliabilityMutationDirection.narrowing
direction C2BoundedPromiseReliabilityMutationFact.bounded_promise_reliability_recovery =
    C2BoundedPromiseReliabilityMutationDirection.recovery

abbrev pub magnitude :
    C2BoundedPromiseReliabilityMutationFact → C2BoundedPromiseReliabilityMutationMagnitude
magnitude C2BoundedPromiseReliabilityMutationFact.bounded_promise_reliability_positive =
    C2BoundedPromiseReliabilityMutationMagnitude.categorical
magnitude C2BoundedPromiseReliabilityMutationFact.no_effect_valid_excused_exit =
    C2BoundedPromiseReliabilityMutationMagnitude.no_effect
magnitude C2BoundedPromiseReliabilityMutationFact.bounded_promise_reliability_correction =
    C2BoundedPromiseReliabilityMutationMagnitude.forward_correction
magnitude C2BoundedPromiseReliabilityMutationFact.bounded_promise_reliability_freeze =
    C2BoundedPromiseReliabilityMutationMagnitude.temporary_suppression
magnitude C2BoundedPromiseReliabilityMutationFact.bounded_promise_reliability_narrowing =
    C2BoundedPromiseReliabilityMutationMagnitude.scope_limited_restriction
magnitude C2BoundedPromiseReliabilityMutationFact.bounded_promise_reliability_recovery =
    C2BoundedPromiseReliabilityMutationMagnitude.eligibility_restoration

pub data C2BoundedPromiseReliabilitySourceFactCandidate : Type 0 where
  accepted : C2BoundedPromiseReliabilitySourceFact → C2BoundedPromiseReliabilitySourceFactCandidate
  rejected :
      RejectedC2BoundedPromiseReliabilitySourceFact → C2BoundedPromiseReliabilitySourceFactCandidate
  unknown : C2BoundedPromiseReliabilitySourceFactCandidate

unfoldable pub source_candidate_code : C2BoundedPromiseReliabilitySourceFactCandidate → String
unfolding source_fact_code rejected_code
source_candidate_code (C2BoundedPromiseReliabilitySourceFactCandidate.accepted source) =
    source_fact_code source
source_candidate_code (C2BoundedPromiseReliabilitySourceFactCandidate.rejected source) =
    rejected_code source
source_candidate_code C2BoundedPromiseReliabilitySourceFactCandidate.unknown = "unknown"

pub data C2BoundedPromiseReliabilityMutationFactCandidate : Type 0 where
  accepted :
      C2BoundedPromiseReliabilityMutationFact → C2BoundedPromiseReliabilityMutationFactCandidate
  unknown : C2BoundedPromiseReliabilityMutationFactCandidate

unfoldable pub mutation_candidate_code : C2BoundedPromiseReliabilityMutationFactCandidate → String
unfolding mutation_fact_code
mutation_candidate_code (C2BoundedPromiseReliabilityMutationFactCandidate.accepted mutation) =
    mutation_fact_code mutation
mutation_candidate_code C2BoundedPromiseReliabilityMutationFactCandidate.unknown = "unknown"
