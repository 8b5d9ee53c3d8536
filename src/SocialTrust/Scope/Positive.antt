-- ===== src/SocialTrust/Scope/Positive.antt =====
-- apps/backend/crates/social-trust-domain/src/lib.rs: the first positive sources.
use pi_musubi_core.Prelude.{◌≡◌, refl, arith, ◌↔◌, ap, sym, ◌∙◌}
use pi_musubi_core.SocialTrust.Facts.{
  C2BoundedPromiseReliabilitySourceFact, C2BoundedPromiseReliabilityMutationFact,
  C2BoundedPromiseReliabilitySourceFactCandidate, C2BoundedPromiseReliabilityMutationDirection,
  C2BoundedPromiseReliabilityMutationMagnitude, expected_mutation, direction,
}
use pi_musubi_core.SocialTrust.Scope.{
  C1FirstPositiveSourceScope, C1FirstPositiveSourceScopeDecision,
  decide_c1_first_positive_source_scope,
}
use pi_musubi_core.SocialTrust.Proposal.{
  ProposedC2BoundedPromiseReliabilityMutationFact, C2BoundedPromiseReliabilityMutationDecision,
}
use pi_musubi_core.SocialTrust.Mutation.{decide_c2_bounded_promise_reliability_mutation}
use pi_musubi_core.SocialTrust.Mutation.Admissible.{mutation_persisted}

-- A scope accepts a candidate as a first positive source.
abbrev pub Accepts :
    C2BoundedPromiseReliabilitySourceFactCandidate → C2BoundedPromiseReliabilitySourceFact → Type 0
Accepts c s =
    (scope : C1FirstPositiveSourceScope) × (decide_c1_first_positive_source_scope c
      ≡ C1FirstPositiveSourceScopeDecision.accept s scope)

accepted_positive :
    (s : C2BoundedPromiseReliabilitySourceFact)
    → (direction (expected_mutation s) ≡ C2BoundedPromiseReliabilityMutationDirection.positive)
    → Accepts (C2BoundedPromiseReliabilitySourceFactCandidate.accepted s) s
unfolding decide_c1_first_positive_source_scope
accepted_positive C2BoundedPromiseReliabilitySourceFact.completed_as_agreed h =
    (C1FirstPositiveSourceScope.fulfilled_commitment_promise_follow_through, refl)
accepted_positive C2BoundedPromiseReliabilitySourceFact.completed_after_governed_review h =
    (C1FirstPositiveSourceScope.accountable_completion_behavior, refl)
accepted_positive _ h = ground arith

positive_accepted :
    (c : C2BoundedPromiseReliabilitySourceFactCandidate) (s : C2BoundedPromiseReliabilitySourceFact)
    → Accepts c s
    → (c ≡ C2BoundedPromiseReliabilitySourceFactCandidate.accepted s)
      × (direction (expected_mutation s) ≡ C2BoundedPromiseReliabilityMutationDirection.positive)
unfolding decide_c1_first_positive_source_scope
positive_accepted c s (scope, h) = ground arith

-- The first positive sources are exactly the accepted sources whose expected fact has the
-- direction `positive`.
pub first_positive_source :
    (c : C2BoundedPromiseReliabilitySourceFactCandidate) (s : C2BoundedPromiseReliabilitySourceFact)
    → Accepts c s ↔ (
        (c ≡ C2BoundedPromiseReliabilitySourceFactCandidate.accepted s)
        × (direction (expected_mutation s) ≡ C2BoundedPromiseReliabilityMutationDirection.positive))
first_positive_source c s = (positive_accepted c s, (λ (e, h). rw e (accepted_positive s h)))

-- A proposal that is persisted with the direction `positive` has a first positive source.
pub positive_needs_scope :
    (p : ProposedC2BoundedPromiseReliabilityMutationFact)
    (s : C2BoundedPromiseReliabilitySourceFact) (m : C2BoundedPromiseReliabilityMutationFact)
    (g : C2BoundedPromiseReliabilityMutationMagnitude)
    → decide_c2_bounded_promise_reliability_mutation p
      ≡ C2BoundedPromiseReliabilityMutationDecision.persist s m
          C2BoundedPromiseReliabilityMutationDirection.positive g
    → Accepts p.source_fact s
positive_needs_scope p s m g h =
    let (a, d, e) =
      (mutation_persisted p s m C2BoundedPromiseReliabilityMutationDirection.positive g).0 h in
    (first_positive_source p.source_fact s).1 (a.source, ap direction (sym a.expected) ∙ sym d)
