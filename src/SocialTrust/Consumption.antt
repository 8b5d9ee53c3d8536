-- ===== src/SocialTrust/Consumption.antt =====
-- apps/backend/crates/social-trust-domain/src/lib.rs: `decide_c2_categorical_fact_consumption`.
pub mod Allowed
use pi_musubi_core.Prelude.{
  ℕ, String, ◌≡◌, ◌≢◌, refl, ap, sym, ◌∙◌, Bool, true, false, not, ◌&&◌, ◌||◌, Option, none, some,
  List, [], ◌∷◌, any, Result, ok, err, arith, PartialEq, ◌==◌, ◌↔◌, ◌⊎◌, inl, inr, nat_eq,
  string_eq, if◌then◌else◌,
}
use pi_musubi_core.SocialTrust.References.{
  StringRef, is_present, is_some_and, is_none, DurableIdempotencyPosture, RetentionPosture,
  EvidencePosture, ReviewabilityPosture, has_dedupe_key, has_class, SocialTrustAuthorityPosture,
  is_projection_only,
}
use pi_musubi_core.SocialTrust.Facts.{
  C2BoundedPromiseReliabilitySourceFact, C2BoundedPromiseReliabilityMutationFact, expected_mutation,
}
use pi_musubi_core.SocialTrust.Boundary.{mutation_fact_eq}

pub data C2CategoricalFactConsumptionTarget : Type 0 where
  internal_writer_fact_reference : C2CategoricalFactConsumptionTarget
  numeric_social_trust_score : C2CategoricalFactConsumptionTarget
  social_trust_score_delta social_trust_weight : C2CategoricalFactConsumptionTarget
  social_trust_rank social_trust_display_level : C2CategoricalFactConsumptionTarget
  social_trust_public_level : C2CategoricalFactConsumptionTarget
  public_social_trust_display recovery_ceiling : C2CategoricalFactConsumptionTarget
  discovery_priority recommendation_boost : C2CategoricalFactConsumptionTarget
  contact_unlock room_transition : C2CategoricalFactConsumptionTarget
  settlement_progression : C2CategoricalFactConsumptionTarget
  promise_runtime_outcome proof_runtime_outcome : C2CategoricalFactConsumptionTarget
  relationship_depth_fact projection_refresh : C2CategoricalFactConsumptionTarget
  public_api_response mobile_ui_state : C2CategoricalFactConsumptionTarget

unfoldable pub target_code : C2CategoricalFactConsumptionTarget → String
target_code C2CategoricalFactConsumptionTarget.internal_writer_fact_reference =
    "internal_writer_fact_reference"
target_code C2CategoricalFactConsumptionTarget.numeric_social_trust_score =
    "numeric_social_trust_score"
target_code C2CategoricalFactConsumptionTarget.social_trust_score_delta = "social_trust_score_delta"
target_code C2CategoricalFactConsumptionTarget.social_trust_weight = "social_trust_weight"
target_code C2CategoricalFactConsumptionTarget.social_trust_rank = "social_trust_rank"
target_code C2CategoricalFactConsumptionTarget.social_trust_display_level =
    "social_trust_display_level"
target_code C2CategoricalFactConsumptionTarget.social_trust_public_level =
    "social_trust_public_level"
target_code C2CategoricalFactConsumptionTarget.public_social_trust_display =
    "public_social_trust_display"
target_code C2CategoricalFactConsumptionTarget.recovery_ceiling = "recovery_ceiling"
target_code C2CategoricalFactConsumptionTarget.discovery_priority = "discovery_priority"
target_code C2CategoricalFactConsumptionTarget.recommendation_boost = "recommendation_boost"
target_code C2CategoricalFactConsumptionTarget.contact_unlock = "contact_unlock"
target_code C2CategoricalFactConsumptionTarget.room_transition = "room_transition"
target_code C2CategoricalFactConsumptionTarget.settlement_progression = "settlement_progression"
target_code C2CategoricalFactConsumptionTarget.promise_runtime_outcome = "promise_runtime_outcome"
target_code C2CategoricalFactConsumptionTarget.proof_runtime_outcome = "proof_runtime_outcome"
target_code C2CategoricalFactConsumptionTarget.relationship_depth_fact = "relationship_depth_fact"
target_code C2CategoricalFactConsumptionTarget.projection_refresh = "projection_refresh"
target_code C2CategoricalFactConsumptionTarget.public_api_response = "public_api_response"
target_code C2CategoricalFactConsumptionTarget.mobile_ui_state = "mobile_ui_state"

pub record C2CategoricalFactConsumptionAttempt : Type 0 where
  pub source_fact : C2BoundedPromiseReliabilitySourceFact
  pub mutation_fact : C2BoundedPromiseReliabilityMutationFact
  pub target : C2CategoricalFactConsumptionTarget
  pub authority_posture : SocialTrustAuthorityPosture

pub data C2CategoricalFactConsumptionRejection : Type 0 where
  source_mutation_mismatch :
      C2BoundedPromiseReliabilitySourceFact
      → C2BoundedPromiseReliabilityMutationFact
      → C2BoundedPromiseReliabilityMutationFact
      → C2CategoricalFactConsumptionRejection
  projection_only_authority : C2CategoricalFactConsumptionRejection
  blocked_consumption_target :
      C2CategoricalFactConsumptionTarget → C2CategoricalFactConsumptionRejection

pub data C2CategoricalFactConsumptionDecision : Type 0 where
  allow_internal_writer_fact_reference :
      C2BoundedPromiseReliabilitySourceFact
      → C2BoundedPromiseReliabilityMutationFact
      → C2CategoricalFactConsumptionDecision
  reject : C2CategoricalFactConsumptionRejection → C2CategoricalFactConsumptionDecision

unfoldable pub rejection_code : C2CategoricalFactConsumptionRejection → String
rejection_code (C2CategoricalFactConsumptionRejection.source_mutation_mismatch a b c) =
    "source_mutation_mismatch"
rejection_code C2CategoricalFactConsumptionRejection.projection_only_authority =
    "projection_only_authority"
rejection_code (C2CategoricalFactConsumptionRejection.blocked_consumption_target a) =
    "blocked_consumption_target"

abbrev pub kind : C2CategoricalFactConsumptionDecision → String
kind (C2CategoricalFactConsumptionDecision.allow_internal_writer_fact_reference source mutation) =
    "allow_internal_writer_fact_reference"
kind (C2CategoricalFactConsumptionDecision.reject rejection) = "rejected"

unfoldable pub rejection_reason_code : C2CategoricalFactConsumptionDecision → Option String
unfolding rejection_code
rejection_reason_code
      (C2CategoricalFactConsumptionDecision.allow_internal_writer_fact_reference source mutation) =
    none
rejection_reason_code (C2CategoricalFactConsumptionDecision.reject rejection) =
    some (rejection_code rejection)

-- `==` of a target and `InternalWriterFactReference`.
abbrev pub is_internal : C2CategoricalFactConsumptionTarget → Bool
is_internal C2CategoricalFactConsumptionTarget.internal_writer_fact_reference = true
is_internal _ = false

unfoldable pub decide_c2_categorical_fact_consumption :
    C2CategoricalFactConsumptionAttempt → C2CategoricalFactConsumptionDecision
decide_c2_categorical_fact_consumption attempt =
    let expected = expected_mutation attempt.source_fact in
    if not (attempt.mutation_fact == expected)
    then C2CategoricalFactConsumptionDecision.reject (
        C2CategoricalFactConsumptionRejection.source_mutation_mismatch attempt.source_fact
          attempt.mutation_fact expected)
    else if is_projection_only attempt.authority_posture
    then C2CategoricalFactConsumptionDecision.reject
        C2CategoricalFactConsumptionRejection.projection_only_authority
    else if not (is_internal attempt.target)
    then C2CategoricalFactConsumptionDecision.reject
        (C2CategoricalFactConsumptionRejection.blocked_consumption_target attempt.target)
    else C2CategoricalFactConsumptionDecision.allow_internal_writer_fact_reference
        attempt.source_fact attempt.mutation_fact
