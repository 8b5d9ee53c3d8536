-- ===== src/SocialTrust/Mutation/References.antt =====
-- apps/backend/crates/social-trust-domain/src/lib.rs: the guards of a proposal on its references.
use pi_musubi_core.Prelude.{◌≡◌, ap, sym, ◌∙◌, Bool, true, false, arith, ◌↔◌, nat_eq, string_eq}
use pi_musubi_core.SocialTrust.References.{
  is_some_and, is_none, class_text, Given, given_lem, classified_lem,
}
use pi_musubi_core.SocialTrust.Facts.{
  C2BoundedPromiseReliabilitySourceFact, C2BoundedPromiseReliabilityMutationFact,
  C2BoundedPromiseReliabilityMutationDirection, C2BoundedPromiseReliabilityMutationMagnitude,
  direction, magnitude,
}
use pi_musubi_core.SocialTrust.Boundary.{source_fact_eq, mutation_fact_eq}
use pi_musubi_core.SocialTrust.Proposal.{
  ProposedC2BoundedPromiseReliabilityMutationFact, C2BoundedPromiseReliabilityMutationDecision,
}
use pi_musubi_core.SocialTrust.Mutation.{decide_references}

-- All the references of a proposal are given.
abbrev pub IsReferenced : ProposedC2BoundedPromiseReliabilityMutationFact → Type 0
IsReferenced p =
    Given p.writer_source_reference
    × Given p.promise_reference
    × Given p.promise_terms_reference
    × Given p.consent_at_formation_reference
    × Given p.consent_at_resolution_reference
    × Given p.block_withdrawal_state_reference
    × Given p.age_assurance_state_reference
    × Given p.legal_hold_intersection_reference
    × Given p.critical_harm_case_reference
    × Given p.account_lifecycle_reference
    × Given p.anti_abuse_continuity_reference
    × Given p.safety_case_reference
    × Given p.evidence_level_reference
    × Given p.audit_reference
    × Given p.reason_fact
    × Given p.fact_idempotency_key
    × (is_none p.evidence_posture ≡ false)
    × (is_none p.reviewability_posture ≡ false)
    × (is_some_and p.retention_posture class_text ≡ true)

pub references_lem :
    (p : ProposedC2BoundedPromiseReliabilityMutationFact)
    (s : C2BoundedPromiseReliabilitySourceFact) (m : C2BoundedPromiseReliabilityMutationFact)
    → (decide_references p s m
        ≡ C2BoundedPromiseReliabilityMutationDecision.persist s m (direction m) (magnitude m))
      ↔ IsReferenced p
unfolding decide_references
references_lem p s m = ground (
  arith,
  given_lem p.writer_source_reference,
  given_lem p.promise_reference,
  given_lem p.promise_terms_reference,
  given_lem p.consent_at_formation_reference,
  given_lem p.consent_at_resolution_reference,
  given_lem p.block_withdrawal_state_reference,
  given_lem p.age_assurance_state_reference,
  given_lem p.legal_hold_intersection_reference,
  given_lem p.critical_harm_case_reference,
  given_lem p.account_lifecycle_reference,
  given_lem p.anti_abuse_continuity_reference,
  given_lem p.safety_case_reference,
  given_lem p.evidence_level_reference,
  given_lem p.audit_reference,
  given_lem p.reason_fact,
  given_lem p.fact_idempotency_key,
  classified_lem p.retention_posture,
)

abbrev is_persist : C2BoundedPromiseReliabilityMutationDecision → Bool
is_persist (C2BoundedPromiseReliabilityMutationDecision.persist s m d g) = true
is_persist (C2BoundedPromiseReliabilityMutationDecision.reject r) = false

references_persist :
    (p : ProposedC2BoundedPromiseReliabilityMutationFact)
    (s : C2BoundedPromiseReliabilitySourceFact) (m : C2BoundedPromiseReliabilityMutationFact)
    → is_persist (decide_references p s m) ≡ true
    → decide_references p s m
      ≡ C2BoundedPromiseReliabilityMutationDecision.persist s m (direction m) (magnitude m)
unfolding decide_references
references_persist p s m h = ground arith

persist_inj :
    (s s' : C2BoundedPromiseReliabilitySourceFact) (m m' : C2BoundedPromiseReliabilityMutationFact)
    (d d' : C2BoundedPromiseReliabilityMutationDirection)
    (g g' : C2BoundedPromiseReliabilityMutationMagnitude)
    → C2BoundedPromiseReliabilityMutationDecision.persist s m d g
      ≡ C2BoundedPromiseReliabilityMutationDecision.persist s' m' d' g'
    → (s ≡ s') × (m ≡ m') × (d ≡ d') × (g ≡ g')
persist_inj s s' m m' d d' g g' h = (cc, cc, cc, cc)

pub references_out :
    (p : ProposedC2BoundedPromiseReliabilityMutationFact)
    (s s' : C2BoundedPromiseReliabilitySourceFact) (m m' : C2BoundedPromiseReliabilityMutationFact)
    (d : C2BoundedPromiseReliabilityMutationDirection)
    (g : C2BoundedPromiseReliabilityMutationMagnitude)
    → decide_references p s m ≡ C2BoundedPromiseReliabilityMutationDecision.persist s' m' d g
    → ((s ≡ s') × (m ≡ m') × (direction m ≡ d) × (magnitude m ≡ g)) × IsReferenced p
references_out p s s' m m' d g h =
    let e = references_persist p s m (ap is_persist h) in
    (persist_inj s s' m m' (direction m) d (magnitude m) g (sym e ∙ h), (references_lem p s m).0 e)
