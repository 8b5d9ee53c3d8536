-- ===== src/SocialTrust/Scope.antt =====
-- apps/backend/crates/social-trust-domain/src/lib.rs: `decide_c1_first_positive_source_scope`.
pub mod Positive
use pi_musubi_core.Prelude.{
  ℕ, String, ◌≡◌, ◌≢◌, refl, ap, sym, ◌∙◌, Bool, true, false, not, ◌&&◌, ◌||◌, Option, none, some,
  List, [], ◌∷◌, any, Result, ok, err, arith, PartialEq, ◌==◌, ◌↔◌, ◌⊎◌, inl, inr, nat_eq,
  string_eq, if◌then◌else◌,
}
use pi_musubi_core.SocialTrust.Rejected.{RejectedC2BoundedPromiseReliabilitySourceFact}
use pi_musubi_core.SocialTrust.Facts.{
  C2BoundedPromiseReliabilitySourceFact, C2BoundedPromiseReliabilitySourceFactCandidate,
}

pub data C1FirstPositiveSourceScope : Type 0 where
  fulfilled_commitment_promise_follow_through : C1FirstPositiveSourceScope
  accountable_completion_behavior : C1FirstPositiveSourceScope

unfoldable pub scope_code : C1FirstPositiveSourceScope → String
scope_code C1FirstPositiveSourceScope.fulfilled_commitment_promise_follow_through =
    "fulfilled_commitments_promise_follow_through"
scope_code C1FirstPositiveSourceScope.accountable_completion_behavior =
    "accountable_completion_behavior"

pub data C1FirstPositiveSourceScopeRejection : Type 0 where
  rejected_source_fact :
      RejectedC2BoundedPromiseReliabilitySourceFact → C1FirstPositiveSourceScopeRejection
  unknown_source_fact : C1FirstPositiveSourceScopeRejection
  not_first_positive_source :
      C2BoundedPromiseReliabilitySourceFact → C1FirstPositiveSourceScopeRejection

pub data C1FirstPositiveSourceScopeDecision : Type 0 where
  accept :
      C2BoundedPromiseReliabilitySourceFact
      → C1FirstPositiveSourceScope
      → C1FirstPositiveSourceScopeDecision
  reject : C1FirstPositiveSourceScopeRejection → C1FirstPositiveSourceScopeDecision

unfoldable pub rejection_code : C1FirstPositiveSourceScopeRejection → String
rejection_code (C1FirstPositiveSourceScopeRejection.rejected_source_fact a) = "rejected_source_fact"
rejection_code C1FirstPositiveSourceScopeRejection.unknown_source_fact = "unknown_source_fact"
rejection_code (C1FirstPositiveSourceScopeRejection.not_first_positive_source a) =
    "not_first_positive_source"

abbrev pub kind : C1FirstPositiveSourceScopeDecision → String
kind (C1FirstPositiveSourceScopeDecision.accept source scope) = "accept"
kind (C1FirstPositiveSourceScopeDecision.reject rejection) = "rejected"

unfoldable pub rejection_reason_code : C1FirstPositiveSourceScopeDecision → Option String
unfolding rejection_code
rejection_reason_code (C1FirstPositiveSourceScopeDecision.accept source scope) = none
rejection_reason_code (C1FirstPositiveSourceScopeDecision.reject rejection) =
    some (rejection_code rejection)

abbrev pub decide_accepted :
    C2BoundedPromiseReliabilitySourceFact → C1FirstPositiveSourceScopeDecision
decide_accepted C2BoundedPromiseReliabilitySourceFact.completed_as_agreed =
    C1FirstPositiveSourceScopeDecision.accept
      C2BoundedPromiseReliabilitySourceFact.completed_as_agreed
      C1FirstPositiveSourceScope.fulfilled_commitment_promise_follow_through
decide_accepted C2BoundedPromiseReliabilitySourceFact.completed_after_governed_review =
    C1FirstPositiveSourceScopeDecision.accept
      C2BoundedPromiseReliabilitySourceFact.completed_after_governed_review
      C1FirstPositiveSourceScope.accountable_completion_behavior
decide_accepted source =
    C1FirstPositiveSourceScopeDecision.reject
      (C1FirstPositiveSourceScopeRejection.not_first_positive_source source)

unfoldable pub decide_c1_first_positive_source_scope :
    C2BoundedPromiseReliabilitySourceFactCandidate → C1FirstPositiveSourceScopeDecision
decide_c1_first_positive_source_scope
      (C2BoundedPromiseReliabilitySourceFactCandidate.accepted source) =
    decide_accepted source
decide_c1_first_positive_source_scope
      (C2BoundedPromiseReliabilitySourceFactCandidate.rejected source) =
    C1FirstPositiveSourceScopeDecision.reject
      (C1FirstPositiveSourceScopeRejection.rejected_source_fact source)
decide_c1_first_positive_source_scope C2BoundedPromiseReliabilitySourceFactCandidate.unknown =
    C1FirstPositiveSourceScopeDecision.reject
      C1FirstPositiveSourceScopeRejection.unknown_source_fact
