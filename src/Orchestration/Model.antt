-- ===== src/Orchestration/Model.antt =====
-- apps/backend/crates/orchestration/src/model.rs, error.rs and the enums of policy.rs and
-- store.rs: the data of the outbox and of the command inbox. A `Uuid` is its 128-bit number, a
-- `DateTime<Utc>` its place in chrono's order of instants. `schema_version` is an `i32`.
pub mod Exec
use pi_musubi_core.Prelude.{
  ℕ, String, ◌≡◌, Bool, true, false, ◌&&◌, Option, none, some, List, Result, ok, err, arith,
  PartialEq, ◌==◌, ◌↔◌, nat_eq, string_eq,
}
use pi_musubi_core.Prelude.Int.{ℤ, pos_part, neg_part}
use pi_musubi_core.Orchestration.Json.{Value}

abbrev pub Uuid : Type 0
Uuid = ℕ

abbrev pub DateTime : Type 0
DateTime = ℕ

pub data RetryClass : Type 0 where
  transient permanent deferred : RetryClass

pub data QuarantineReason : Type 0 where
  poison_pill permanent_failure attempt_budget_exceeded compatibility_window_expired :
      QuarantineReason

pub data OrchestrationError : Type 0 where
  replica_read_forbidden : OrchestrationError
  payload_hash_encoding_failed : String → OrchestrationError
  empty_external_idempotency_key : OrchestrationError
  empty_authoritative_write_batch : OrchestrationError
  database : String → OrchestrationError
  event_already_exists : Uuid → OrchestrationError
  idempotency_key_already_exists : Uuid → OrchestrationError
  stale_outbox_claim : Uuid → OrchestrationError
  conflicting_command_envelope : String → Uuid → OrchestrationError
  stale_command_claim : String → Uuid → OrchestrationError
  outbox_message_not_found : Uuid → OrchestrationError
  command_inbox_not_found : String → Uuid → OrchestrationError

pub data WriterReadSource : Type 0 where
  primary_writer read_replica : WriterReadSource

pub record AuthoritativeChange : Type 0 where
  pub aggregate_type : String
  pub aggregate_id : Uuid
  pub change_type : String
  pub payload_json : Value

pub record NewOutboxMessage : Type 0 where
  pub event_id : Uuid
  pub idempotency_key : Uuid
  pub stream_key : String
  pub aggregate_type : String
  pub aggregate_id : Uuid
  pub event_type : String
  pub schema_version : ℤ
  pub payload_json : Value
  pub payload_hash : String
  pub available_at : DateTime
  pub created_at : DateTime

pub data OutboxDeliveryStatus : Type 0 where
  pending processing published failed quarantined : OutboxDeliveryStatus

pub record OutboxMessage : Type 0 where
  pub event_id : Uuid
  pub idempotency_key : Uuid
  pub stream_key : String
  pub aggregate_type : String
  pub aggregate_id : Uuid
  pub event_type : String
  pub schema_version : ℤ
  pub payload_json : Value
  pub payload_hash : String
  pub delivery_status : OutboxDeliveryStatus
  pub attempt_count : ℕ  -- u32
  pub available_at : DateTime
  pub created_at : DateTime
  pub published_at : Option DateTime
  pub last_attempt_at : Option DateTime
  pub last_error_class : Option RetryClass
  pub last_error_code : Option String
  pub last_error_detail : Option String
  pub claimed_by : Option String
  pub claimed_until : Option DateTime
  pub quarantined_at : Option DateTime
  pub quarantine_reason : Option QuarantineReason
  pub retain_until : Option DateTime
  pub causal_order : ℕ  -- the 64 bits of an i64
  pub published_external_idempotency_key : Option String

pub record ClaimedOutboxMessage : Type 0 where
  pub message : OutboxMessage
  pub relay_name : String
  pub claimed_at : DateTime
  pub claimed_until : DateTime

pub record OutboxAttempt : Type 0 where
  pub event_id : Uuid
  pub attempt_number : ℕ  -- u32
  pub relay_name : String
  pub claimed_at : DateTime
  pub claimed_until : DateTime
  pub finished_at : DateTime
  pub failure_class : Option RetryClass
  pub failure_code : Option String
  pub failure_detail : Option String
  pub external_idempotency_key : Option String

-- The key of `ExternalIdempotencyKey` is its text.
pub record DeliveryReceipt : Type 0 where
  pub external_idempotency_key : String

pub record ProcessingFailure : Type 0 where
  pub class : RetryClass
  pub code : String
  pub detail : String
  pub quarantine_reason : QuarantineReason

unfoldable pub transient_failure : String → String → ProcessingFailure
transient_failure code detail = record {
  class = transient;
  code = code;
  detail = detail;
  quarantine_reason = attempt_budget_exceeded;
}

unfoldable pub permanent_failure_of : String → String → ProcessingFailure
permanent_failure_of code detail = record {
  class = permanent;
  code = code;
  detail = detail;
  quarantine_reason = permanent_failure;
}

unfoldable pub deferred_failure : String → String → ProcessingFailure
deferred_failure code detail = record {
  class = deferred;
  code = code;
  detail = detail;
  quarantine_reason = compatibility_window_expired;
}

unfoldable pub expired_window_failure : String → String → ProcessingFailure
expired_window_failure code detail = record {
  class = permanent;
  code = code;
  detail = detail;
  quarantine_reason = compatibility_window_expired;
}

unfoldable pub poison_pill_failure : String → String → ProcessingFailure
poison_pill_failure code detail = record {
  class = permanent;
  code = code;
  detail = detail;
  quarantine_reason = poison_pill;
}

pub data DeliveryOutcome : Type 0 where
  idle : DeliveryOutcome
  published_event : Uuid → DeliveryOutcome
  retry_scheduled : Uuid → DateTime → DeliveryOutcome
  quarantined_event : Uuid → QuarantineReason → DeliveryOutcome

pub record CommandEnvelope : Type 0 where
  pub command_id : Uuid
  pub source_event_id : Uuid
  pub command_type : String
  pub schema_version : ℤ
  pub payload_json : Value
  pub payload_hash : String

pub data CommandInboxStatus : Type 0 where
  pending processing completed quarantined : CommandInboxStatus

pub record CommandKey : Type 0 where
  pub consumer_name : String
  pub command_id : Uuid

pub record CommandInboxEntry : Type 0 where
  pub key : CommandKey
  pub source_event_id : Uuid
  pub command_type : String
  pub schema_version : ℤ
  pub payload_hash : String
  pub status : CommandInboxStatus
  pub attempt_count : ℕ  -- u32
  pub first_seen_at : DateTime
  pub available_at : DateTime
  pub completed_at : Option DateTime
  pub claimed_by : Option String
  pub claimed_until : Option DateTime
  pub last_error_class : Option RetryClass
  pub last_error_code : Option String
  pub last_error_detail : Option String
  pub quarantined_at : Option DateTime
  pub quarantine_reason : Option QuarantineReason
  pub result_type : Option String
  pub result_json : Option Value
  pub retain_until : Option DateTime

pub data CommandBeginOutcome : Type 0 where
  first_seen ready_for_retry duplicate deferred : CommandInboxEntry → CommandBeginOutcome

pub record CommandCompletion : Type 0 where
  pub result_type : String
  pub result_json : Value

pub record CommandQuarantine : Type 0 where
  pub quarantined_at : DateTime
  pub retain_until : DateTime
  pub reason : QuarantineReason
  pub failure : ProcessingFailure

pub data ConsumeOutcome : Type 0 where
  completed : Uuid → ConsumeOutcome
  retry_scheduled : Uuid → DateTime → ConsumeOutcome
  duplicate : Uuid → ConsumeOutcome
  deferred : Uuid → DateTime → ConsumeOutcome
  quarantined : Uuid → QuarantineReason → ConsumeOutcome

pub record ArchivedOutboxMessage : Type 0 where
  pub message : OutboxMessage
  pub attempts : List OutboxAttempt
  pub pruned_at : DateTime

pub record ArchivedCommandInboxEntry : Type 0 where
  pub entry : CommandInboxEntry
  pub pruned_at : DateTime

pub record PruneOutcome : Type 0 where
  pub pruned_outbox_event_ids : List Uuid
  pub pruned_command_keys : List CommandKey

-- `==` of two `i32`.
abbrev pub int_beq : ℤ → ℤ → Bool
int_beq a b = pos_part a == pos_part b && neg_part a == neg_part b

-- `PartialEq` of `CommandKey`.
unfoldable pub command_key_beq : CommandKey → CommandKey → Bool
command_key_beq a b = a.consumer_name == b.consumer_name && a.command_id == b.command_id

pub command_key_beq_iff : (a b : CommandKey) → (command_key_beq a b ≡ true) ↔ (a ≡ b)
unfolding command_key_beq
command_key_beq_iff a b = ground (arith, string_eq.decides a.consumer_name b.consumer_name)

instance abbrev pub command_key_eq : PartialEq CommandKey
command_key_eq = record { eq = command_key_beq; decides = command_key_beq_iff }
