-- ===== src/Orchestration/Store.antt =====
-- apps/backend/crates/orchestration/src/store.rs: the state of `InMemoryOrchestrationStore`, its
-- readers and its private tests. The operations are in `Outbox`, `Inbox` and `Prune`.
pub mod Outbox
pub mod Inbox
pub mod Prune
pub mod History
use pi_musubi_core.Prelude.{
  ℕ, ◌+◌, ◌%◌, ◌^◌, String, ◌≡◌, Bool, true, false, ◌&&◌, ◌||◌, Option, none, some, List, [],
  Result, ok, err, PartialEq, ◌==◌, nat_eq, string_eq, option_eq, filter, if◌then◌else◌, ltb,
}
use pi_musubi_core.HashMap.{HashMap, get}
use pi_musubi_core.Orchestration.Model.{
  Uuid, DateTime, OrchestrationError, WriterReadSource, AuthoritativeChange, OutboxMessage,
  OutboxAttempt, OutboxDeliveryStatus, CommandKey, CommandInboxEntry, CommandInboxStatus,
  CommandEnvelope, ArchivedOutboxMessage, ArchivedCommandInboxEntry, replica_read_forbidden,
  conflicting_command_envelope, command_key_eq, int_beq, read_replica,
}

pub record InMemoryOrchestrationStore : Type 0 where
  pub authoritative_changes : List AuthoritativeChange
  pub outbox_messages : HashMap Uuid OutboxMessage
  pub outbox_attempts : List OutboxAttempt
  pub command_inbox : HashMap CommandKey CommandInboxEntry
  pub archived_outbox_messages : List ArchivedOutboxMessage
  pub archived_command_inbox : List ArchivedCommandInboxEntry
  pub next_causal_order : ℕ  -- the 64 bits of an i64

-- `Default`
abbrev pub default : InMemoryOrchestrationStore
default = record {
  authoritative_changes = [];
  outbox_messages = [];
  outbox_attempts = [];
  command_inbox = [];
  archived_outbox_messages = [];
  archived_command_inbox = [];
  next_causal_order = 0;
}

-- `n + 1` of a `u32`, of an `i64`, and the place of an `i64` in its order.
abbrev pub u32_succ : ℕ → ℕ
u32_succ n = (n + 1) % 2 ^ 32

abbrev pub i64_succ : ℕ → ℕ
i64_succ n = (n + 1) % 2 ^ 64

abbrev pub i64_rank : ℕ → ℕ
i64_rank n = (n + 2 ^ 63) % 2 ^ 64

unfoldable pub outbox_message : Uuid → InMemoryOrchestrationStore → Option OutboxMessage
outbox_message event_id s = get event_id s.outbox_messages

-- `filter(|attempt| attempt.event_id == event_id)`
abbrev pub attempts_of : Uuid → List OutboxAttempt → List OutboxAttempt
attempts_of event_id = filter (λ attempt. attempt.event_id == event_id)

unfoldable pub outbox_attempts : Uuid → InMemoryOrchestrationStore → List OutboxAttempt
outbox_attempts event_id s = attempts_of event_id s.outbox_attempts

abbrev pub command_key : String → Uuid → CommandKey
command_key consumer_name command_id = record {
  consumer_name = consumer_name;
  command_id = command_id;
}

unfoldable pub command_inbox_entry :
    String → Uuid → InMemoryOrchestrationStore → Option CommandInboxEntry
command_inbox_entry consumer_name command_id s =
    get (command_key consumer_name command_id) s.command_inbox

abbrev pub is_replica : WriterReadSource → Bool
is_replica WriterReadSource.primary_writer = false
is_replica WriterReadSource.read_replica = true

unfoldable pub ensure_writer : WriterReadSource → Result OrchestrationError (Unit {0})
ensure_writer WriterReadSource.primary_writer = ok tt
ensure_writer WriterReadSource.read_replica = err replica_read_forbidden

unfoldable pub matches_inbox_entry : CommandEnvelope → CommandInboxEntry → Bool
matches_inbox_entry command entry =
    command.source_event_id == entry.source_event_id
    && (command.command_type == entry.command_type
        && (int_beq command.schema_version entry.schema_version
            && command.payload_hash == entry.payload_hash))

unfoldable pub ensure_matching_command :
    String → CommandEnvelope → CommandInboxEntry → Result OrchestrationError (Unit {0})
unfolding matches_inbox_entry
ensure_matching_command consumer_name command entry =
    if matches_inbox_entry command entry
    then ok tt
    else err (conflicting_command_envelope consumer_name command.command_id)

-- `matches!` on one status.
abbrev pub is_processing : OutboxDeliveryStatus → Bool
is_processing OutboxDeliveryStatus.processing = true
is_processing _ = false

abbrev pub is_command_processing : CommandInboxStatus → Bool
is_command_processing CommandInboxStatus.processing = true
is_command_processing _ = false

unfoldable pub outbox_attempt_matches : OutboxMessage → OutboxAttempt → Bool
outbox_attempt_matches message attempt =
    is_processing message.delivery_status
    && (message.claimed_by == some attempt.relay_name
        && message.claimed_until == some attempt.claimed_until)

unfoldable pub command_claim_matches : CommandInboxEntry → String → DateTime → Bool
command_claim_matches entry consumer_name expected_claimed_until =
    is_command_processing entry.status
    && (entry.claimed_by == some consumer_name
        && entry.claimed_until == some expected_claimed_until)
