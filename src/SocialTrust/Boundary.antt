-- ===== src/SocialTrust/Boundary.antt =====
-- apps/backend/crates/social-trust-domain/src/lib.rs: the boundary postures, and the equality of the facts.
use pi_musubi_core.Prelude.{ℕ, String, ◌≡◌, ap, arith, PartialEq, ◌==◌, nat_eq, string_eq}
use pi_musubi_core.SocialTrust.Facts.{
  C2BoundedPromiseReliabilitySourceFact, C2BoundedPromiseReliabilityMutationFact,
}

pub data C2BoundedPromiseReliabilityBoundaryIntersection : Type 0 where
  consent : C2BoundedPromiseReliabilityBoundaryIntersection
  block_mute_refusal_or_withdrawal : C2BoundedPromiseReliabilityBoundaryIntersection
  age_assurance legal_hold : C2BoundedPromiseReliabilityBoundaryIntersection
  critical_harm account_lifecycle : C2BoundedPromiseReliabilityBoundaryIntersection
  appeal_correction_or_safety_review : C2BoundedPromiseReliabilityBoundaryIntersection
  anti_abuse_suppression : C2BoundedPromiseReliabilityBoundaryIntersection
  collusion_scam_or_coercion : C2BoundedPromiseReliabilityBoundaryIntersection
  sensitive_exposure : C2BoundedPromiseReliabilityBoundaryIntersection

unfoldable pub boundary_code : C2BoundedPromiseReliabilityBoundaryIntersection → String
boundary_code C2BoundedPromiseReliabilityBoundaryIntersection.consent = "consent"
boundary_code C2BoundedPromiseReliabilityBoundaryIntersection.block_mute_refusal_or_withdrawal =
    "block_mute_refusal_or_withdrawal"
boundary_code C2BoundedPromiseReliabilityBoundaryIntersection.age_assurance = "age_assurance"
boundary_code C2BoundedPromiseReliabilityBoundaryIntersection.legal_hold = "legal_hold"
boundary_code C2BoundedPromiseReliabilityBoundaryIntersection.critical_harm = "critical_harm"
boundary_code C2BoundedPromiseReliabilityBoundaryIntersection.account_lifecycle =
    "account_lifecycle"
boundary_code C2BoundedPromiseReliabilityBoundaryIntersection.appeal_correction_or_safety_review =
    "appeal_correction_or_safety_review"
boundary_code C2BoundedPromiseReliabilityBoundaryIntersection.anti_abuse_suppression =
    "anti_abuse_suppression"
boundary_code C2BoundedPromiseReliabilityBoundaryIntersection.collusion_scam_or_coercion =
    "collusion_scam_or_coercion"
boundary_code C2BoundedPromiseReliabilityBoundaryIntersection.sensitive_exposure =
    "sensitive_exposure"

pub data C2BoundedPromiseReliabilityBoundaryPosture : Type 0 where
  clear : C2BoundedPromiseReliabilityBoundaryPosture
  unresolved :
      C2BoundedPromiseReliabilityBoundaryIntersection → C2BoundedPromiseReliabilityBoundaryPosture

-- The derived `PartialEq` of `C2BoundedPromiseReliabilitySourceFact`, by its discriminant.
abbrev pub source_fact_index : C2BoundedPromiseReliabilitySourceFact → ℕ
source_fact_index C2BoundedPromiseReliabilitySourceFact.completed_as_agreed = 0
source_fact_index C2BoundedPromiseReliabilitySourceFact.completed_after_governed_review = 1
source_fact_index C2BoundedPromiseReliabilitySourceFact.valid_excused_exit = 2
source_fact_index C2BoundedPromiseReliabilitySourceFact.source_fact_corrected = 3
source_fact_index C2BoundedPromiseReliabilitySourceFact.review_required_boundary_intersection = 4
source_fact_index C2BoundedPromiseReliabilitySourceFact.source_scope_limited_after_review = 5
source_fact_index C2BoundedPromiseReliabilitySourceFact.freeze_or_narrowing_reversed_after_review =
    6

pub source_fact_index_inj :
    (a b : C2BoundedPromiseReliabilitySourceFact)
    → source_fact_index a ≡ source_fact_index b
    → a ≡ b
source_fact_index_inj C2BoundedPromiseReliabilitySourceFact.completed_as_agreed b h = ground arith
source_fact_index_inj C2BoundedPromiseReliabilitySourceFact.completed_after_governed_review b h =
    ground arith
source_fact_index_inj C2BoundedPromiseReliabilitySourceFact.valid_excused_exit b h = ground arith
source_fact_index_inj C2BoundedPromiseReliabilitySourceFact.source_fact_corrected b h = ground arith
source_fact_index_inj C2BoundedPromiseReliabilitySourceFact.review_required_boundary_intersection b
      h =
    ground arith
source_fact_index_inj C2BoundedPromiseReliabilitySourceFact.source_scope_limited_after_review b h =
    ground arith
source_fact_index_inj
      C2BoundedPromiseReliabilitySourceFact.freeze_or_narrowing_reversed_after_review b h =
    ground arith

instance abbrev pub source_fact_eq : PartialEq C2BoundedPromiseReliabilitySourceFact
source_fact_eq = record {
  eq = λ a b. source_fact_index a == source_fact_index b;
  decides = λ a b. (
    (λ h.
        source_fact_index_inj a b
          ((nat_eq.decides (source_fact_index a) (source_fact_index b)).0 h)),
    (λ h. (nat_eq.decides (source_fact_index a) (source_fact_index b)).1 (ap source_fact_index h)),
  );
}

-- The derived `PartialEq` of `C2BoundedPromiseReliabilityMutationFact`, by its discriminant.
abbrev pub mutation_fact_index : C2BoundedPromiseReliabilityMutationFact → ℕ
mutation_fact_index C2BoundedPromiseReliabilityMutationFact.bounded_promise_reliability_positive = 0
mutation_fact_index C2BoundedPromiseReliabilityMutationFact.no_effect_valid_excused_exit = 1
mutation_fact_index C2BoundedPromiseReliabilityMutationFact.bounded_promise_reliability_correction =
    2
mutation_fact_index C2BoundedPromiseReliabilityMutationFact.bounded_promise_reliability_freeze = 3
mutation_fact_index C2BoundedPromiseReliabilityMutationFact.bounded_promise_reliability_narrowing =
    4
mutation_fact_index C2BoundedPromiseReliabilityMutationFact.bounded_promise_reliability_recovery = 5

pub mutation_fact_index_inj :
    (a b : C2BoundedPromiseReliabilityMutationFact)
    → mutation_fact_index a ≡ mutation_fact_index b
    → a ≡ b
mutation_fact_index_inj C2BoundedPromiseReliabilityMutationFact.bounded_promise_reliability_positive
      b h =
    ground arith
mutation_fact_index_inj C2BoundedPromiseReliabilityMutationFact.no_effect_valid_excused_exit b h =
    ground arith
mutation_fact_index_inj
      C2BoundedPromiseReliabilityMutationFact.bounded_promise_reliability_correction b h =
    ground arith
mutation_fact_index_inj C2BoundedPromiseReliabilityMutationFact.bounded_promise_reliability_freeze b
      h =
    ground arith
mutation_fact_index_inj
      C2BoundedPromiseReliabilityMutationFact.bounded_promise_reliability_narrowing b h =
    ground arith
mutation_fact_index_inj C2BoundedPromiseReliabilityMutationFact.bounded_promise_reliability_recovery
      b h =
    ground arith

instance abbrev pub mutation_fact_eq : PartialEq C2BoundedPromiseReliabilityMutationFact
mutation_fact_eq = record {
  eq = λ a b. mutation_fact_index a == mutation_fact_index b;
  decides = λ a b. (
    (λ h.
        mutation_fact_index_inj a b
          ((nat_eq.decides (mutation_fact_index a) (mutation_fact_index b)).0 h)),
    (λ h.
        (nat_eq.decides (mutation_fact_index a) (mutation_fact_index b)).1
          (ap mutation_fact_index h)),
  );
}
