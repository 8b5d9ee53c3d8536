-- ===== src/SocialTrust/Sources.antt =====
-- apps/backend/crates/social-trust-domain/src/lib.rs: the source categories of an intake attempt.
use pi_musubi_core.Prelude.{String, nat_eq, string_eq}

pub data ForbiddenSocialTrustSourceCategory : Type 0 where
  projection_state analytics_state model_output : ForbiddenSocialTrustSourceCategory
  observability_state client_state : ForbiddenSocialTrustSourceCategory
  frontend_state payment_amount : ForbiddenSocialTrustSourceCategory
  payment_frequency support_amount_or_status : ForbiddenSocialTrustSourceCategory
  token_holdings popularity follower_count : ForbiddenSocialTrustSourceCategory
  reply_speed dwell_time tenure : ForbiddenSocialTrustSourceCategory
  romantic_desirability engagement : ForbiddenSocialTrustSourceCategory
  engagement_telemetry recommendation_state : ForbiddenSocialTrustSourceCategory
  discovery_state discovery_ranking : ForbiddenSocialTrustSourceCategory
  relationship_depth room_projection : ForbiddenSocialTrustSourceCategory
  operator_notes support_tickets issue_comments : ForbiddenSocialTrustSourceCategory
  anti_abuse_marker_existence : ForbiddenSocialTrustSourceCategory
  age_assurance_posture proof_callback_alone : ForbiddenSocialTrustSourceCategory
  vendor_callback_alone : ForbiddenSocialTrustSourceCategory
  controlled_exceptional_account_activity : ForbiddenSocialTrustSourceCategory
  implementation_convenience : ForbiddenSocialTrustSourceCategory

unfoldable pub forbidden_code : ForbiddenSocialTrustSourceCategory → String
forbidden_code ForbiddenSocialTrustSourceCategory.projection_state = "projection_state"
forbidden_code ForbiddenSocialTrustSourceCategory.analytics_state = "analytics_state"
forbidden_code ForbiddenSocialTrustSourceCategory.model_output = "model_output"
forbidden_code ForbiddenSocialTrustSourceCategory.observability_state = "observability_state"
forbidden_code ForbiddenSocialTrustSourceCategory.client_state = "client_state"
forbidden_code ForbiddenSocialTrustSourceCategory.frontend_state = "frontend_state"
forbidden_code ForbiddenSocialTrustSourceCategory.payment_amount = "payment_amount"
forbidden_code ForbiddenSocialTrustSourceCategory.payment_frequency = "payment_frequency"
forbidden_code ForbiddenSocialTrustSourceCategory.support_amount_or_status =
    "support_amount_or_status"
forbidden_code ForbiddenSocialTrustSourceCategory.token_holdings = "token_holdings"
forbidden_code ForbiddenSocialTrustSourceCategory.popularity = "popularity"
forbidden_code ForbiddenSocialTrustSourceCategory.follower_count = "follower_count"
forbidden_code ForbiddenSocialTrustSourceCategory.reply_speed = "reply_speed"
forbidden_code ForbiddenSocialTrustSourceCategory.dwell_time = "dwell_time"
forbidden_code ForbiddenSocialTrustSourceCategory.tenure = "tenure"
forbidden_code ForbiddenSocialTrustSourceCategory.romantic_desirability = "romantic_desirability"
forbidden_code ForbiddenSocialTrustSourceCategory.engagement = "engagement"
forbidden_code ForbiddenSocialTrustSourceCategory.engagement_telemetry = "engagement_telemetry"
forbidden_code ForbiddenSocialTrustSourceCategory.recommendation_state = "recommendation_state"
forbidden_code ForbiddenSocialTrustSourceCategory.discovery_state = "discovery_state"
forbidden_code ForbiddenSocialTrustSourceCategory.discovery_ranking = "discovery_ranking"
forbidden_code ForbiddenSocialTrustSourceCategory.relationship_depth = "relationship_depth"
forbidden_code ForbiddenSocialTrustSourceCategory.room_projection = "room_projection"
forbidden_code ForbiddenSocialTrustSourceCategory.operator_notes = "operator_notes"
forbidden_code ForbiddenSocialTrustSourceCategory.support_tickets = "support_tickets"
forbidden_code ForbiddenSocialTrustSourceCategory.issue_comments = "issue_comments"
forbidden_code ForbiddenSocialTrustSourceCategory.anti_abuse_marker_existence =
    "anti_abuse_marker_existence"
forbidden_code ForbiddenSocialTrustSourceCategory.age_assurance_posture = "age_assurance_posture"
forbidden_code ForbiddenSocialTrustSourceCategory.proof_callback_alone = "proof_callback_alone"
forbidden_code ForbiddenSocialTrustSourceCategory.vendor_callback_alone = "vendor_callback_alone"
forbidden_code ForbiddenSocialTrustSourceCategory.controlled_exceptional_account_activity =
    "controlled_exceptional_account_activity"
forbidden_code ForbiddenSocialTrustSourceCategory.implementation_convenience =
    "implementation_convenience"

pub data SocialTrustSourceCategory : Type 0 where
  writer_source_candidate unknown : SocialTrustSourceCategory
  forbidden : ForbiddenSocialTrustSourceCategory → SocialTrustSourceCategory

unfoldable pub category_code : SocialTrustSourceCategory → String
unfolding forbidden_code
category_code SocialTrustSourceCategory.writer_source_candidate = "writer_source_candidate"
category_code (SocialTrustSourceCategory.forbidden source) = forbidden_code source
category_code SocialTrustSourceCategory.unknown = "unknown"
