-- ===== src/SocialTrust/Readback.antt =====
-- apps/backend/crates/social-trust-domain/src/lib.rs: how the three decisions fit together.
use pi_musubi_core.Prelude.{◌≡◌, refl, arith, ◌≢◌}
use pi_musubi_core.SocialTrust.References.{SocialTrustAuthorityPosture}
use pi_musubi_core.SocialTrust.Facts.{
  C2BoundedPromiseReliabilitySourceFact, C2BoundedPromiseReliabilityMutationFact,
  C2BoundedPromiseReliabilityMutationDirection, C2BoundedPromiseReliabilityMutationMagnitude,
  expected_mutation,
}
use pi_musubi_core.SocialTrust.Proposal.{
  ProposedC2BoundedPromiseReliabilityMutationFact, C2BoundedPromiseReliabilityMutationDecision,
}
use pi_musubi_core.SocialTrust.Mutation.{decide_c2_bounded_promise_reliability_mutation}
use pi_musubi_core.SocialTrust.Mutation.Admissible.{mutation_persisted}
use pi_musubi_core.SocialTrust.Consumption.{
  C2CategoricalFactConsumptionTarget, C2CategoricalFactConsumptionRejection,
  C2CategoricalFactConsumptionDecision, decide_c2_categorical_fact_consumption,
}
use pi_musubi_core.SocialTrust.Consumption.Allowed.{consumption-IsAllowed}
use pi_musubi_core.SocialTrust.Boundary.{mutation_fact_eq}

-- The fact of a persisted decision is handed out to the writer's internal reference: what
-- persists is never refused as a mismatch when it is read back.
pub persisted_is_consumed :
    (p : ProposedC2BoundedPromiseReliabilityMutationFact)
    (s : C2BoundedPromiseReliabilitySourceFact) (m : C2BoundedPromiseReliabilityMutationFact)
    (d : C2BoundedPromiseReliabilityMutationDirection)
    (g : C2BoundedPromiseReliabilityMutationMagnitude)
    → decide_c2_bounded_promise_reliability_mutation p
      ≡ C2BoundedPromiseReliabilityMutationDecision.persist s m d g
    → decide_c2_categorical_fact_consumption (record {
      source_fact = s;
      mutation_fact = m;
      target = C2CategoricalFactConsumptionTarget.internal_writer_fact_reference;
      authority_posture = p.authority_posture;
    })
      ≡ C2CategoricalFactConsumptionDecision.allow_internal_writer_fact_reference s m
persisted_is_consumed p s m d g h =
    let (a, e, f) = (mutation_persisted p s m d g).0 h in
    (consumption-IsAllowed _ s m).1 ((a.expected, a.authority, refl), refl, refl)

blocked_target :
    (s : C2BoundedPromiseReliabilitySourceFact) (m : C2BoundedPromiseReliabilityMutationFact)
    (t : C2CategoricalFactConsumptionTarget) (a : SocialTrustAuthorityPosture)
    → m ≡ expected_mutation s
    → a ≡ SocialTrustAuthorityPosture.writer_truth_only
    → t ≢ C2CategoricalFactConsumptionTarget.internal_writer_fact_reference
    → decide_c2_categorical_fact_consumption
        (record { source_fact = s; mutation_fact = m; target = t; authority_posture = a })
      ≡ C2CategoricalFactConsumptionDecision.reject
          (C2CategoricalFactConsumptionRejection.blocked_consumption_target t)
unfolding decide_c2_categorical_fact_consumption
blocked_target s m t a e f n = ground (arith, (mutation_fact_eq.decides m (expected_mutation s)).1)

-- The fact of a persisted decision is refused, as a blocked target, to every target but the
-- writer's internal reference.
pub persisted_is_blocked :
    (p : ProposedC2BoundedPromiseReliabilityMutationFact)
    (s : C2BoundedPromiseReliabilitySourceFact) (m : C2BoundedPromiseReliabilityMutationFact)
    (d : C2BoundedPromiseReliabilityMutationDirection)
    (g : C2BoundedPromiseReliabilityMutationMagnitude) (t : C2CategoricalFactConsumptionTarget)
    → decide_c2_bounded_promise_reliability_mutation p
      ≡ C2BoundedPromiseReliabilityMutationDecision.persist s m d g
    → t ≢ C2CategoricalFactConsumptionTarget.internal_writer_fact_reference
    → decide_c2_categorical_fact_consumption (record {
      source_fact = s;
      mutation_fact = m;
      target = t;
      authority_posture = p.authority_posture;
    })
      ≡ C2CategoricalFactConsumptionDecision.reject
          (C2CategoricalFactConsumptionRejection.blocked_consumption_target t)
persisted_is_blocked p s m d g t h n =
    let (a, e, f) = (mutation_persisted p s m d g).0 h in
    blocked_target s m t p.authority_posture a.expected a.authority n
