-- ===== src/SocialTrust/Rejected.antt =====
-- apps/backend/crates/social-trust-domain/src/lib.rs: the sources that are never a promise-reliability fact.
use pi_musubi_core.Prelude.{String, nat_eq, string_eq}

pub data RejectedC2BoundedPromiseReliabilitySourceFact : Type 0 where
  promise_creation : RejectedC2BoundedPromiseReliabilitySourceFact
  promise_acceptance promise_terms : RejectedC2BoundedPromiseReliabilitySourceFact
  promise_escrow_creation : RejectedC2BoundedPromiseReliabilitySourceFact
  escrow_amount escrow_release : RejectedC2BoundedPromiseReliabilitySourceFact
  forfeiture payment_amount : RejectedC2BoundedPromiseReliabilitySourceFact
  payment_frequency support_amount : RejectedC2BoundedPromiseReliabilitySourceFact
  support_status token_holdings : RejectedC2BoundedPromiseReliabilitySourceFact
  meeting_attendance_claim_by_one_party : RejectedC2BoundedPromiseReliabilitySourceFact
  raw_venue_presence raw_gps : RejectedC2BoundedPromiseReliabilitySourceFact
  static_qr_scan nfc_tap_alone : RejectedC2BoundedPromiseReliabilitySourceFact
  ble_observation_alone : RejectedC2BoundedPromiseReliabilitySourceFact
  ble_mac_address : RejectedC2BoundedPromiseReliabilitySourceFact
  device_attestation_alone : RejectedC2BoundedPromiseReliabilitySourceFact
  missing_device_attestation_alone : RejectedC2BoundedPromiseReliabilitySourceFact
  proximity_proof_alone : RejectedC2BoundedPromiseReliabilitySourceFact
  proof_eligibility_alone : RejectedC2BoundedPromiseReliabilitySourceFact
  proof_callback_alone : RejectedC2BoundedPromiseReliabilitySourceFact
  vendor_callback_alone : RejectedC2BoundedPromiseReliabilitySourceFact
  provider_dashboard_state : RejectedC2BoundedPromiseReliabilitySourceFact
  projection_readiness : RejectedC2BoundedPromiseReliabilitySourceFact
  reflection_praise apology_text : RejectedC2BoundedPromiseReliabilitySourceFact
  subjective_gratitude : RejectedC2BoundedPromiseReliabilitySourceFact
  single_party_narrative : RejectedC2BoundedPromiseReliabilitySourceFact
  report_count mass_report_count : RejectedC2BoundedPromiseReliabilitySourceFact
  operator_note : RejectedC2BoundedPromiseReliabilitySourceFact
  steward_endorsement_by_itself : RejectedC2BoundedPromiseReliabilitySourceFact
  support_ticket issue_comment : RejectedC2BoundedPromiseReliabilitySourceFact
  popularity follower_count : RejectedC2BoundedPromiseReliabilitySourceFact
  reply_speed dwell_time : RejectedC2BoundedPromiseReliabilitySourceFact
  message_volume account_tenure : RejectedC2BoundedPromiseReliabilitySourceFact
  romantic_desirability : RejectedC2BoundedPromiseReliabilitySourceFact
  engagement_telemetry : RejectedC2BoundedPromiseReliabilitySourceFact
  relationship_depth : RejectedC2BoundedPromiseReliabilitySourceFact
  room_state_by_itself : RejectedC2BoundedPromiseReliabilitySourceFact
  room_projection discovery_ranking : RejectedC2BoundedPromiseReliabilitySourceFact
  recommendation_state : RejectedC2BoundedPromiseReliabilitySourceFact
  observability_state model_output : RejectedC2BoundedPromiseReliabilitySourceFact
  frontend_state client_state : RejectedC2BoundedPromiseReliabilitySourceFact
  controlled_exceptional_account_activity : RejectedC2BoundedPromiseReliabilitySourceFact
  age_assurance_posture : RejectedC2BoundedPromiseReliabilitySourceFact
  verified_adult_posture : RejectedC2BoundedPromiseReliabilitySourceFact
  legal_hold_existence : RejectedC2BoundedPromiseReliabilitySourceFact
  anti_abuse_continuity_marker_existence : RejectedC2BoundedPromiseReliabilitySourceFact
  account_lifecycle_state_by_itself : RejectedC2BoundedPromiseReliabilitySourceFact
  deletion_closure_tombstone_anonymization_key_shredding_or_re_entry :
      RejectedC2BoundedPromiseReliabilitySourceFact
  implementation_convenience : RejectedC2BoundedPromiseReliabilitySourceFact

unfoldable pub rejected_code : RejectedC2BoundedPromiseReliabilitySourceFact → String
rejected_code RejectedC2BoundedPromiseReliabilitySourceFact.promise_creation = "promise_creation"
rejected_code RejectedC2BoundedPromiseReliabilitySourceFact.promise_acceptance =
    "promise_acceptance"
rejected_code RejectedC2BoundedPromiseReliabilitySourceFact.promise_terms = "promise_terms"
rejected_code RejectedC2BoundedPromiseReliabilitySourceFact.promise_escrow_creation =
    "promise_escrow_creation"
rejected_code RejectedC2BoundedPromiseReliabilitySourceFact.escrow_amount = "escrow_amount"
rejected_code RejectedC2BoundedPromiseReliabilitySourceFact.escrow_release = "escrow_release"
rejected_code RejectedC2BoundedPromiseReliabilitySourceFact.forfeiture = "forfeiture"
rejected_code RejectedC2BoundedPromiseReliabilitySourceFact.payment_amount = "payment_amount"
rejected_code RejectedC2BoundedPromiseReliabilitySourceFact.payment_frequency = "payment_frequency"
rejected_code RejectedC2BoundedPromiseReliabilitySourceFact.support_amount = "support_amount"
rejected_code RejectedC2BoundedPromiseReliabilitySourceFact.support_status = "support_status"
rejected_code RejectedC2BoundedPromiseReliabilitySourceFact.token_holdings = "token_holdings"
rejected_code RejectedC2BoundedPromiseReliabilitySourceFact.meeting_attendance_claim_by_one_party =
    "meeting_attendance_claim_by_one_party"
rejected_code RejectedC2BoundedPromiseReliabilitySourceFact.raw_venue_presence =
    "raw_venue_presence"
rejected_code RejectedC2BoundedPromiseReliabilitySourceFact.raw_gps = "raw_gps"
rejected_code RejectedC2BoundedPromiseReliabilitySourceFact.static_qr_scan = "static_qr_scan"
rejected_code RejectedC2BoundedPromiseReliabilitySourceFact.nfc_tap_alone = "nfc_tap_alone"
rejected_code RejectedC2BoundedPromiseReliabilitySourceFact.ble_observation_alone =
    "ble_observation_alone"
rejected_code RejectedC2BoundedPromiseReliabilitySourceFact.ble_mac_address = "ble_mac_address"
rejected_code RejectedC2BoundedPromiseReliabilitySourceFact.device_attestation_alone =
    "device_attestation_alone"
rejected_code RejectedC2BoundedPromiseReliabilitySourceFact.missing_device_attestation_alone =
    "missing_device_attestation_alone"
rejected_code RejectedC2BoundedPromiseReliabilitySourceFact.proximity_proof_alone =
    "proximity_proof_alone"
rejected_code RejectedC2BoundedPromiseReliabilitySourceFact.proof_eligibility_alone =
    "proof_eligibility_alone"
rejected_code RejectedC2BoundedPromiseReliabilitySourceFact.proof_callback_alone =
    "proof_callback_alone"
rejected_code RejectedC2BoundedPromiseReliabilitySourceFact.vendor_callback_alone =
    "vendor_callback_alone"
rejected_code RejectedC2BoundedPromiseReliabilitySourceFact.provider_dashboard_state =
    "provider_dashboard_state"
rejected_code RejectedC2BoundedPromiseReliabilitySourceFact.projection_readiness =
    "projection_readiness"
rejected_code RejectedC2BoundedPromiseReliabilitySourceFact.reflection_praise = "reflection_praise"
rejected_code RejectedC2BoundedPromiseReliabilitySourceFact.apology_text = "apology_text"
rejected_code RejectedC2BoundedPromiseReliabilitySourceFact.subjective_gratitude =
    "subjective_gratitude"
rejected_code RejectedC2BoundedPromiseReliabilitySourceFact.single_party_narrative =
    "single_party_narrative"
rejected_code RejectedC2BoundedPromiseReliabilitySourceFact.report_count = "report_count"
rejected_code RejectedC2BoundedPromiseReliabilitySourceFact.mass_report_count = "mass_report_count"
rejected_code RejectedC2BoundedPromiseReliabilitySourceFact.operator_note = "operator_note"
rejected_code RejectedC2BoundedPromiseReliabilitySourceFact.steward_endorsement_by_itself =
    "steward_endorsement_by_itself"
rejected_code RejectedC2BoundedPromiseReliabilitySourceFact.support_ticket = "support_ticket"
rejected_code RejectedC2BoundedPromiseReliabilitySourceFact.issue_comment = "issue_comment"
rejected_code RejectedC2BoundedPromiseReliabilitySourceFact.popularity = "popularity"
rejected_code RejectedC2BoundedPromiseReliabilitySourceFact.follower_count = "follower_count"
rejected_code RejectedC2BoundedPromiseReliabilitySourceFact.reply_speed = "reply_speed"
rejected_code RejectedC2BoundedPromiseReliabilitySourceFact.dwell_time = "dwell_time"
rejected_code RejectedC2BoundedPromiseReliabilitySourceFact.message_volume = "message_volume"
rejected_code RejectedC2BoundedPromiseReliabilitySourceFact.account_tenure = "account_tenure"
rejected_code RejectedC2BoundedPromiseReliabilitySourceFact.romantic_desirability =
    "romantic_desirability"
rejected_code RejectedC2BoundedPromiseReliabilitySourceFact.engagement_telemetry =
    "engagement_telemetry"
rejected_code RejectedC2BoundedPromiseReliabilitySourceFact.relationship_depth =
    "relationship_depth"
rejected_code RejectedC2BoundedPromiseReliabilitySourceFact.room_state_by_itself =
    "room_state_by_itself"
rejected_code RejectedC2BoundedPromiseReliabilitySourceFact.room_projection = "room_projection"
rejected_code RejectedC2BoundedPromiseReliabilitySourceFact.discovery_ranking = "discovery_ranking"
rejected_code RejectedC2BoundedPromiseReliabilitySourceFact.recommendation_state =
    "recommendation_state"
rejected_code RejectedC2BoundedPromiseReliabilitySourceFact.observability_state =
    "observability_state"
rejected_code RejectedC2BoundedPromiseReliabilitySourceFact.model_output = "model_output"
rejected_code RejectedC2BoundedPromiseReliabilitySourceFact.frontend_state = "frontend_state"
rejected_code RejectedC2BoundedPromiseReliabilitySourceFact.client_state = "client_state"
rejected_code
      RejectedC2BoundedPromiseReliabilitySourceFact.controlled_exceptional_account_activity =
    "controlled_exceptional_account_activity"
rejected_code RejectedC2BoundedPromiseReliabilitySourceFact.age_assurance_posture =
    "age_assurance_posture"
rejected_code RejectedC2BoundedPromiseReliabilitySourceFact.verified_adult_posture =
    "verified_adult_posture"
rejected_code RejectedC2BoundedPromiseReliabilitySourceFact.legal_hold_existence =
    "legal_hold_existence"
rejected_code RejectedC2BoundedPromiseReliabilitySourceFact.anti_abuse_continuity_marker_existence =
    "anti_abuse_continuity_marker_existence"
rejected_code RejectedC2BoundedPromiseReliabilitySourceFact.account_lifecycle_state_by_itself =
    "account_lifecycle_state_by_itself"
rejected_code
      RejectedC2BoundedPromiseReliabilitySourceFact.deletion_closure_tombstone_anonymization_key_shredding_or_re_entry =
    "deletion_closure_tombstone_anonymization_key_shredding_or_re_entry"
rejected_code RejectedC2BoundedPromiseReliabilitySourceFact.implementation_convenience =
    "implementation_convenience"
