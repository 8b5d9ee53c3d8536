-- ===== src/SocialTrust/Intake/Admissible.antt =====
-- apps/backend/crates/social-trust-domain/src/lib.rs: when an intake attempt is a candidate, and what a rejection
-- says of it.
use pi_musubi_core.Prelude.{◌≡◌, true, false, none, arith, ◌↔◌, nat_eq, string_eq}
use pi_musubi_core.SocialTrust.References.{
  is_some_and, is_none, SocialTrustAuthorityPosture, class_text, key_text, Given, Missing,
  given_lem, classified_lem, keyed_lem,
}
use pi_musubi_core.SocialTrust.Sources.{SocialTrustSourceCategory}
use pi_musubi_core.SocialTrust.Intake.{
  ProposedSocialTrustMutationAttempt, SocialTrustIntakeDecision, SocialTrustIntakeRejection,
  decide_candidate, decide_social_trust_intake,
}

abbrev pub IsAdmissible : ProposedSocialTrustMutationAttempt → Type 0
IsAdmissible a =
    (a.source_category ≡ SocialTrustSourceCategory.writer_source_candidate)
    × (a.authority_posture ≡ SocialTrustAuthorityPosture.writer_truth_only)
    × Given a.writer_source_reference
    × Given a.reason_fact
    × (is_some_and a.idempotency_posture key_text ≡ true)
    × (is_none a.evidence_posture ≡ false)
    × (is_none a.reviewability_posture ≡ false)
    × (is_some_and a.retention_posture class_text ≡ true)

-- What a rejection says is wrong with the attempt.
abbrev pub Fault : ProposedSocialTrustMutationAttempt → SocialTrustIntakeRejection → Type 0
Fault a (SocialTrustIntakeRejection.forbidden_source source) =
    a.source_category ≡ SocialTrustSourceCategory.forbidden source
Fault a SocialTrustIntakeRejection.unknown_source_category =
    a.source_category ≡ SocialTrustSourceCategory.unknown
Fault a SocialTrustIntakeRejection.projection_only_authority =
    a.authority_posture ≡ SocialTrustAuthorityPosture.projection_only
Fault a SocialTrustIntakeRejection.missing_writer_source_reference =
    Missing a.writer_source_reference
Fault a SocialTrustIntakeRejection.missing_reason_fact = Missing a.reason_fact
Fault a SocialTrustIntakeRejection.missing_idempotency_posture =
    is_some_and a.idempotency_posture key_text ≡ false
Fault a SocialTrustIntakeRejection.missing_evidence_posture = a.evidence_posture ≡ none
Fault a SocialTrustIntakeRejection.missing_reviewability_posture = a.reviewability_posture ≡ none
Fault a SocialTrustIntakeRejection.missing_retention_posture =
    is_some_and a.retention_posture class_text ≡ false

-- An intake attempt is a candidate for persistence exactly when its source is a writer's candidate,
-- its authority is the writer's, it has evidence and reviewability postures, and its writer
-- source, reason, idempotency key and retention class are given by texts that are not blank.
pub intake_candidate :
    (a : ProposedSocialTrustMutationAttempt)
    → (decide_social_trust_intake a ≡ SocialTrustIntakeDecision.candidate_for_writer_persistence)
      ↔ IsAdmissible a
unfolding decide_social_trust_intake decide_candidate
intake_candidate a = ground (
  arith,
  given_lem a.writer_source_reference,
  given_lem a.reason_fact,
  keyed_lem a.idempotency_posture,
  classified_lem a.retention_posture,
)

-- A rejected intake attempt has the fault that its rejection names.
pub intake_rejection :
    (a : ProposedSocialTrustMutationAttempt) (r : SocialTrustIntakeRejection)
    → decide_social_trust_intake a ≡ SocialTrustIntakeDecision.reject r
    → Fault a r
unfolding decide_social_trust_intake decide_candidate
intake_rejection a r h = ground (
  arith,
  given_lem a.writer_source_reference,
  given_lem a.reason_fact,
  keyed_lem a.idempotency_posture,
  classified_lem a.retention_posture,
)
