-- ===== src/SocialTrust/Consumption/Allowed.antt =====
-- apps/backend/crates/social-trust-domain/src/lib.rs: what may consume a categorical fact.
use pi_musubi_core.Prelude.{◌≡◌, ◌≢◌, arith, ◌↔◌}
use pi_musubi_core.SocialTrust.References.{SocialTrustAuthorityPosture}
use pi_musubi_core.SocialTrust.Facts.{
  C2BoundedPromiseReliabilitySourceFact, C2BoundedPromiseReliabilityMutationFact, expected_mutation,
}
use pi_musubi_core.SocialTrust.Boundary.{mutation_fact_eq}
use pi_musubi_core.SocialTrust.Consumption.{
  C2CategoricalFactConsumptionTarget, C2CategoricalFactConsumptionRejection,
  C2CategoricalFactConsumptionDecision, C2CategoricalFactConsumptionAttempt,
  decide_c2_categorical_fact_consumption,
}

abbrev pub IsAllowed : C2CategoricalFactConsumptionAttempt → Type 0
IsAllowed a =
    (a.mutation_fact ≡ expected_mutation a.source_fact)
    × (a.authority_posture ≡ SocialTrustAuthorityPosture.writer_truth_only)
    × (a.target ≡ C2CategoricalFactConsumptionTarget.internal_writer_fact_reference)

-- What a rejection says is wrong with the attempt.
abbrev pub Fault :
    C2CategoricalFactConsumptionAttempt → C2CategoricalFactConsumptionRejection → Type 0
Fault a (C2CategoricalFactConsumptionRejection.source_mutation_mismatch source requested expected) =
    (a.source_fact ≡ source)
    × (a.mutation_fact ≡ requested)
    × (expected ≡ expected_mutation source)
    × (requested ≢ expected)
Fault a C2CategoricalFactConsumptionRejection.projection_only_authority =
    a.authority_posture ≡ SocialTrustAuthorityPosture.projection_only
Fault a (C2CategoricalFactConsumptionRejection.blocked_consumption_target target) =
    (a.target ≡ target)
    × (target ≢ C2CategoricalFactConsumptionTarget.internal_writer_fact_reference)

-- A fact is handed out, unchanged, exactly when it is the one expected of its source, the
-- authority is the writer's and the target is the internal writer-fact reference, whatever the
-- other nineteen targets are.
pub consumption-IsAllowed :
    (a : C2CategoricalFactConsumptionAttempt) (s : C2BoundedPromiseReliabilitySourceFact)
    (m : C2BoundedPromiseReliabilityMutationFact)
    → (decide_c2_categorical_fact_consumption a
        ≡ C2CategoricalFactConsumptionDecision.allow_internal_writer_fact_reference s m)
      ↔ (IsAllowed a × (s ≡ a.source_fact) × (m ≡ a.mutation_fact))
unfolding decide_c2_categorical_fact_consumption
consumption-IsAllowed a s m =
    ground (arith, mutation_fact_eq.decides a.mutation_fact (expected_mutation a.source_fact))

-- A rejected consumption has the fault that its rejection names.
pub consumption_rejection :
    (a : C2CategoricalFactConsumptionAttempt) (r : C2CategoricalFactConsumptionRejection)
    → decide_c2_categorical_fact_consumption a ≡ C2CategoricalFactConsumptionDecision.reject r
    → Fault a r
unfolding decide_c2_categorical_fact_consumption
consumption_rejection a r h =
    ground (arith, mutation_fact_eq.decides a.mutation_fact (expected_mutation a.source_fact))
