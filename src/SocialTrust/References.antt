-- ===== src/SocialTrust/References.antt =====
-- apps/backend/crates/social-trust-domain/src/lib.rs: the texts of `string_ref!` and the postures. Each
-- `string_ref!` type is its text.
use pi_musubi_core.Prelude.{
  String, ◌≡◌, refl, Bool, true, false, not, Option, none, some, any, nat_eq, string_eq,
}
use pi_musubi_core.Prelude.Text.{codes, trim, is_empty, is_black, trim-is_empty}

pub record StringRef : Type 0 where
  pub text : String

unfoldable pub is_present : StringRef → Bool
unfolding trim
is_present r = not (is_empty (trim (codes r.text)))

-- `Option::is_some_and` and `Option::is_none`.
module _ {A : Type 0} where
  abbrev pub is_some_and : Option A → (A → Bool) → Bool
  is_some_and none p = false
  is_some_and (some a) p = p a

  abbrev pub is_none : Option A → Bool
  is_none none = true
  is_none (some a) = false

pub data EvidencePosture : Type 0 where
  bounded : EvidencePosture

pub data ReviewabilityPosture : Type 0 where
  reviewable : ReviewabilityPosture

pub data SocialTrustAuthorityPosture : Type 0 where
  writer_truth_only projection_only : SocialTrustAuthorityPosture

unfoldable pub evidence_code : EvidencePosture → String
evidence_code EvidencePosture.bounded = "bounded"

unfoldable pub reviewability_code : ReviewabilityPosture → String
reviewability_code ReviewabilityPosture.reviewable = "reviewable"

unfoldable pub authority_code : SocialTrustAuthorityPosture → String
authority_code SocialTrustAuthorityPosture.writer_truth_only = "writer_truth_only"
authority_code SocialTrustAuthorityPosture.projection_only = "projection_only"

pub data DurableIdempotencyPosture : Type 0 where
  durable_dedupe_key : StringRef → DurableIdempotencyPosture

pub data RetentionPosture : Type 0 where
  classified : StringRef → RetentionPosture

abbrev pub has_dedupe_key : DurableIdempotencyPosture → Bool
has_dedupe_key (durable_dedupe_key key) = is_present key

abbrev pub has_class : RetentionPosture → Bool
has_class (classified reference) = is_present reference

abbrev pub class_reference : RetentionPosture → StringRef
class_reference (classified reference) = reference

-- `==` of the authority posture.
abbrev pub is_projection_only : SocialTrustAuthorityPosture → Bool
is_projection_only SocialTrustAuthorityPosture.writer_truth_only = false
is_projection_only SocialTrustAuthorityPosture.projection_only = true

-- A reference is present exactly when its text has a character that is not white space.
pub is_present_lem : (r : StringRef) → is_present r ≡ any is_black (codes r.text)
unfolding is_present trim
is_present_lem r = trim-is_empty (codes r.text)

abbrev pub has_text : StringRef → Bool
has_text r = any is_black (codes r.text)

-- What the intake and the mutation decision need of a reference: a text that is not blank.
abbrev pub Given : Option StringRef → Type 0
Given o = is_some_and o has_text ≡ true

abbrev pub Missing : Option StringRef → Type 0
Missing o = is_some_and o has_text ≡ false

abbrev pub class_text : RetentionPosture → Bool
class_text (classified reference) = has_text reference

abbrev pub key_text : DurableIdempotencyPosture → Bool
key_text (durable_dedupe_key key) = has_text key

pub given_lem : (o : Option StringRef) → is_some_and o is_present ≡ is_some_and o has_text
given_lem none = refl
given_lem (some r) = is_present_lem r

pub classified_lem :
    (o : Option RetentionPosture) → is_some_and o has_class ≡ is_some_and o class_text
classified_lem none = refl
classified_lem (some (classified r)) = is_present_lem r

pub keyed_lem :
    (o : Option DurableIdempotencyPosture) → is_some_and o has_dedupe_key ≡ is_some_and o key_text
keyed_lem none = refl
keyed_lem (some (durable_dedupe_key r)) = is_present_lem r
