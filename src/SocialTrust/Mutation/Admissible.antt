-- ===== src/SocialTrust/Mutation/Admissible.antt =====
-- apps/backend/crates/social-trust-domain/src/lib.rs: when
-- `decide_c2_bounded_promise_reliability_mutation` persists.
use pi_musubi_core.Prelude.{◌≡◌, refl, Bool, true, false, arith, ◌==◌, ◌↔◌, nat_eq, string_eq}
use pi_musubi_core.SocialTrust.References.{SocialTrustAuthorityPosture}
use pi_musubi_core.SocialTrust.Facts.{
  C2BoundedPromiseReliabilitySourceFact, C2BoundedPromiseReliabilityMutationFact,
  C2BoundedPromiseReliabilityMutationDirection, C2BoundedPromiseReliabilityMutationMagnitude,
  C2BoundedPromiseReliabilitySourceFactCandidate, C2BoundedPromiseReliabilityMutationFactCandidate,
  expected_mutation, direction, magnitude,
}
use pi_musubi_core.SocialTrust.Boundary.{
  C2BoundedPromiseReliabilityBoundaryPosture, source_fact_eq, mutation_fact_eq,
}
use pi_musubi_core.SocialTrust.Proposal.{
  ProposedC2BoundedPromiseReliabilityMutationFact, C2BoundedPromiseReliabilityMutationDecision,
}
use pi_musubi_core.SocialTrust.Mutation.{
  decide_references, decide_boundary, decide_facts, decide_requested,
  decide_c2_bounded_promise_reliability_mutation,
}
use pi_musubi_core.SocialTrust.Mutation.References.{IsReferenced, references_lem, references_out}

abbrev pub is_unresolved : C2BoundedPromiseReliabilityBoundaryPosture → Bool
is_unresolved C2BoundedPromiseReliabilityBoundaryPosture.clear = false
is_unresolved (C2BoundedPromiseReliabilityBoundaryPosture.unresolved boundary) = true

abbrev pub is_review : C2BoundedPromiseReliabilitySourceFact → Bool
is_review C2BoundedPromiseReliabilitySourceFact.review_required_boundary_intersection = true
is_review _ = false

pub record IsAdmissible (p : ProposedC2BoundedPromiseReliabilityMutationFact)
    (s : C2BoundedPromiseReliabilitySourceFact) (m : C2BoundedPromiseReliabilityMutationFact)
    : Type 0 where
  pub source : p.source_fact ≡ C2BoundedPromiseReliabilitySourceFactCandidate.accepted s
  pub requested :
      p.requested_mutation_fact ≡ C2BoundedPromiseReliabilityMutationFactCandidate.accepted m
  pub expected : m ≡ expected_mutation s
  pub authority : p.authority_posture ≡ SocialTrustAuthorityPosture.writer_truth_only
  pub boundary : is_unresolved p.boundary_posture ≡ is_review s
  pub referenced : IsReferenced p

is_review_lem :
    (s : C2BoundedPromiseReliabilitySourceFact)
    → (s == C2BoundedPromiseReliabilitySourceFact.review_required_boundary_intersection)
      ≡ is_review s
is_review_lem s = ground arith

boundary_out :
    (p : ProposedC2BoundedPromiseReliabilityMutationFact)
    (s s' : C2BoundedPromiseReliabilitySourceFact) (m m' : C2BoundedPromiseReliabilityMutationFact)
    (d : C2BoundedPromiseReliabilityMutationDirection)
    (g : C2BoundedPromiseReliabilityMutationMagnitude)
    → decide_boundary p s m ≡ C2BoundedPromiseReliabilityMutationDecision.persist s' m' d g
    → (is_unresolved p.boundary_posture ≡ is_review s)
      × (decide_references p s m ≡ C2BoundedPromiseReliabilityMutationDecision.persist s' m' d g)
unfolding decide_boundary
boundary_out p s s' m m' d g h = ground (arith, is_review_lem s)

facts_out :
    (p : ProposedC2BoundedPromiseReliabilityMutationFact)
    (s s' : C2BoundedPromiseReliabilitySourceFact) (m m' : C2BoundedPromiseReliabilityMutationFact)
    (d : C2BoundedPromiseReliabilityMutationDirection)
    (g : C2BoundedPromiseReliabilityMutationMagnitude)
    → decide_facts p s m ≡ C2BoundedPromiseReliabilityMutationDecision.persist s' m' d g
    → (m ≡ expected_mutation s)
      × (p.authority_posture ≡ SocialTrustAuthorityPosture.writer_truth_only)
      × (decide_boundary p s m ≡ C2BoundedPromiseReliabilityMutationDecision.persist s' m' d g)
unfolding decide_facts
facts_out p s s' m m' d g h = ground (arith, (mutation_fact_eq.decides m (expected_mutation s)).0)

decision_out :
    (p : ProposedC2BoundedPromiseReliabilityMutationFact)
    (s : C2BoundedPromiseReliabilitySourceFact) (m : C2BoundedPromiseReliabilityMutationFact)
    (d : C2BoundedPromiseReliabilityMutationDirection)
    (g : C2BoundedPromiseReliabilityMutationMagnitude)
    (o : C2BoundedPromiseReliabilitySourceFactCandidate)
    (q : C2BoundedPromiseReliabilityMutationFactCandidate)
    → p.source_fact ≡ o
    → p.requested_mutation_fact ≡ q
    → decide_c2_bounded_promise_reliability_mutation p
      ≡ C2BoundedPromiseReliabilityMutationDecision.persist s m d g
    → (t : C2BoundedPromiseReliabilitySourceFact) × (n : C2BoundedPromiseReliabilityMutationFact)
      × (o ≡ C2BoundedPromiseReliabilitySourceFactCandidate.accepted t)
      × (q ≡ C2BoundedPromiseReliabilityMutationFactCandidate.accepted n)
      × (decide_facts p t n ≡ C2BoundedPromiseReliabilityMutationDecision.persist s m d g)
unfolding decide_c2_bounded_promise_reliability_mutation decide_requested
decision_out p s m d g (C2BoundedPromiseReliabilitySourceFactCandidate.accepted t)
      (C2BoundedPromiseReliabilityMutationFactCandidate.accepted n) e f h =
    (t, n, refl, refl, rw (e, f) at h)
decision_out p s m d g _ _ e f h = ground arith

persist_out :
    (p : ProposedC2BoundedPromiseReliabilityMutationFact)
    (s : C2BoundedPromiseReliabilitySourceFact) (m : C2BoundedPromiseReliabilityMutationFact)
    (d : C2BoundedPromiseReliabilityMutationDirection)
    (g : C2BoundedPromiseReliabilityMutationMagnitude)
    → decide_c2_bounded_promise_reliability_mutation p
      ≡ C2BoundedPromiseReliabilityMutationDecision.persist s m d g
    → IsAdmissible p s m × (d ≡ direction m) × (g ≡ magnitude m)
persist_out p s m d g h =
    let (t, n, et, en, h0) =
      decision_out p s m d g p.source_fact p.requested_mutation_fact refl refl h in
    let (ex, au, h1) = facts_out p t s n m d g h0 in
    let (bo, h2) = boundary_out p t s n m d g h1 in
    let ((es, em, ed, eg), re) = references_out p t s n m d g h2 in
    (
      record {
        source = cc;
        requested = cc;
        expected = cc;
        authority = au;
        boundary = cc;
        referenced = re;
      },
      cc,
      cc,
    )

boundary_in :
    (p : ProposedC2BoundedPromiseReliabilityMutationFact)
    (s : C2BoundedPromiseReliabilitySourceFact) (m : C2BoundedPromiseReliabilityMutationFact)
    (x : C2BoundedPromiseReliabilityMutationDecision)
    → is_unresolved p.boundary_posture ≡ is_review s
    → decide_references p s m ≡ x
    → decide_boundary p s m ≡ x
unfolding decide_boundary
boundary_in p s m x b h = ground (arith, is_review_lem s)

facts_in :
    (p : ProposedC2BoundedPromiseReliabilityMutationFact)
    (s : C2BoundedPromiseReliabilitySourceFact) (m : C2BoundedPromiseReliabilityMutationFact)
    (x : C2BoundedPromiseReliabilityMutationDecision)
    → m ≡ expected_mutation s
    → p.authority_posture ≡ SocialTrustAuthorityPosture.writer_truth_only
    → decide_boundary p s m ≡ x
    → decide_facts p s m ≡ x
unfolding decide_facts
facts_in p s m x e a h = ground (arith, (mutation_fact_eq.decides m (expected_mutation s)).1)

decision_in :
    (p : ProposedC2BoundedPromiseReliabilityMutationFact)
    (s : C2BoundedPromiseReliabilitySourceFact) (m : C2BoundedPromiseReliabilityMutationFact)
    → IsAdmissible p s m
    → decide_c2_bounded_promise_reliability_mutation p
      ≡ C2BoundedPromiseReliabilityMutationDecision.persist s m (direction m) (magnitude m)
unfolding decide_c2_bounded_promise_reliability_mutation decide_requested
decision_in p s m a =
    rw (a.source, a.requested)
      (facts_in p s m
        (C2BoundedPromiseReliabilityMutationDecision.persist s m (direction m) (magnitude m))
        a.expected a.authority
        (boundary_in p s m
          (C2BoundedPromiseReliabilityMutationDecision.persist s m (direction m) (magnitude m))
          a.boundary ((references_lem p s m).1 a.referenced)))

-- A mutation fact is persisted exactly when the source and the requested fact are accepted ones,
-- the requested fact is the one expected of the source, the authority is the writer's, the
-- boundary posture is unresolved exactly for the source that says so, all postures are set and no
-- reference is blank; the direction and the magnitude are then those of the fact.
pub mutation_persisted :
    (p : ProposedC2BoundedPromiseReliabilityMutationFact)
    (s : C2BoundedPromiseReliabilitySourceFact) (m : C2BoundedPromiseReliabilityMutationFact)
    (d : C2BoundedPromiseReliabilityMutationDirection)
    (g : C2BoundedPromiseReliabilityMutationMagnitude)
    → (decide_c2_bounded_promise_reliability_mutation p
        ≡ C2BoundedPromiseReliabilityMutationDecision.persist s m d g)
      ↔ (IsAdmissible p s m × (d ≡ direction m) × (g ≡ magnitude m))
mutation_persisted p s m d g =
    (persist_out p s m d g, (λ (a, e, f). rw (e, f) (decision_in p s m a)))
