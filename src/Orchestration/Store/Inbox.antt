-- ===== src/Orchestration/Store/Inbox.antt =====
-- apps/backend/crates/orchestration/src/store.rs: the operations of the command inbox.
pub mod Cases
pub mod Valid
pub mod Idempotent
use pi_musubi_core.Prelude.{
  ℕ, ◌+◌, String, ◌≡◌, Bool, true, false, ◌&&◌, ◌||◌, Option, none, some, List, [], ◌∷◌, ◌++◌,
  Result, ok, err, PartialEq, ◌==◌, nat_eq, string_eq, option_eq, if◌then◌else◌, ltb, leb,
}
use mathlib.Core.Option.{get_or}
use pi_musubi_core.HashMap.{HashMap, get, insert}
use pi_musubi_core.Orchestration.Model.{
  Uuid, DateTime, OrchestrationError, WriterReadSource, CommandEnvelope, CommandKey,
  CommandInboxEntry, CommandInboxStatus, CommandBeginOutcome, CommandCompletion, CommandQuarantine,
  ProcessingFailure, stale_command_claim, command_inbox_not_found, pending, processing, completed,
  quarantined, first_seen, ready_for_retry, duplicate, deferred, command_key_eq, command_key_beq,
}
use pi_musubi_core.Orchestration.Model.Exec.{Exec}
use pi_musubi_core.Orchestration.Store.{
  InMemoryOrchestrationStore, u32_succ, ensure_writer, command_key, ensure_matching_command,
  command_claim_matches,
}

-- The row of a command that is seen for the first time.
unfoldable pub new_entry : String → CommandEnvelope → DateTime → DateTime → CommandInboxEntry
new_entry consumer_name command now claimed_until = record {
  key = command_key consumer_name command.command_id;
  source_event_id = command.source_event_id;
  command_type = command.command_type;
  schema_version = command.schema_version;
  payload_hash = command.payload_hash;
  status = processing;
  attempt_count = 0;
  first_seen_at = now;
  available_at = now;
  completed_at = none;
  claimed_by = some consumer_name;
  claimed_until = some claimed_until;
  last_error_class = none;
  last_error_code = none;
  last_error_detail = none;
  quarantined_at = none;
  quarantine_reason = none;
  result_type = none;
  result_json = none;
  retain_until = none;
}

unfoldable pub reclaimed : String → DateTime → CommandInboxEntry → CommandInboxEntry
reclaimed consumer_name claimed_until existing = record existing {
  status = processing;
  claimed_by = some consumer_name;
  claimed_until = some claimed_until;
}

-- `is_some_and(|current_claim| current_claim > now)`
abbrev pub is_after : Option DateTime → DateTime → Bool
is_after none now = false
is_after (some current_claim) now = ltb now current_claim

-- The `match existing.status` of `begin_command`: the outcome, and the row that stays.
unfoldable pub begin_existing :
    CommandInboxStatus
    → String
    → DateTime
    → DateTime
    → CommandInboxEntry
    → CommandBeginOutcome × CommandInboxEntry
unfolding reclaimed
begin_existing completed consumer_name now claimed_until existing = (duplicate existing, existing)
begin_existing quarantined consumer_name now claimed_until existing = (duplicate existing, existing)
begin_existing pending consumer_name now claimed_until existing =
    if ltb now existing.available_at then (deferred existing, existing) else (
      ready_for_retry (reclaimed consumer_name claimed_until existing),
      reclaimed consumer_name claimed_until existing,
    )
begin_existing processing consumer_name now claimed_until existing =
    if is_after existing.claimed_until now
    then (
      deferred
          (record existing { available_at = get_or existing.claimed_until existing.available_at }),
      existing,
    )
    else (
      ready_for_retry (reclaimed consumer_name claimed_until existing),
      reclaimed consumer_name claimed_until existing,
    )

-- A write of `row` through `get_mut`.
abbrev pub put_entry :
    CommandKey → CommandInboxEntry → InMemoryOrchestrationStore → InMemoryOrchestrationStore
put_entry key row s = record s { command_inbox = insert key row s.command_inbox }

unfoldable pub begin_command :
    WriterReadSource
    → String
    → CommandEnvelope
    → DateTime
    → DateTime
    → Exec InMemoryOrchestrationStore CommandBeginOutcome
unfolding ensure_writer ensure_matching_command begin_existing new_entry
begin_command source consumer_name command now claimed_until s =
    let key = command_key consumer_name command.command_id in
    elim (ensure_writer source) [
      | err e ↦ (err e, s)
      | ok _ ↦ elim (get key s.command_inbox) [
        | some existing ↦ elim (ensure_matching_command consumer_name command existing) [
          | err e ↦ (err e, s)
          | ok _ ↦
              let begun = begin_existing existing.status consumer_name now claimed_until existing in
              (ok begun.0, put_entry key begun.1 s)
        ]
        | none ↦
            let entry = new_entry consumer_name command now claimed_until in
            (ok (first_seen entry), put_entry key entry s)
      ]
    ]

-- What the three operations that end a command's attempt share.
unfoldable pub end_command :
    String
    → Uuid
    → DateTime
    → (CommandInboxEntry → CommandInboxEntry)
    → Exec InMemoryOrchestrationStore (Unit {0})
unfolding command_claim_matches
end_command consumer_name command_id expected_claimed_until change s =
    let key = command_key consumer_name command_id in
    elim (get key s.command_inbox) [
      | none ↦ (err (command_inbox_not_found consumer_name command_id), s)
      | some entry ↦
          if command_claim_matches entry consumer_name expected_claimed_until
          then (ok tt, put_entry key (change entry) s)
          else (err (stale_command_claim consumer_name command_id), s)
    ]

unfoldable pub completed_entry :
    DateTime → DateTime → CommandCompletion → CommandInboxEntry → CommandInboxEntry
completed_entry completed_at retain_until completion entry = record entry {
  status = completed;
  attempt_count = u32_succ entry.attempt_count;
  completed_at = some completed_at;
  claimed_by = none;
  claimed_until = none;
  last_error_class = none;
  last_error_code = none;
  last_error_detail = none;
  result_type = some completion.result_type;
  result_json = some completion.result_json;
  retain_until = some retain_until;
}

unfoldable pub complete_command :
    String
    → Uuid
    → DateTime
    → DateTime
    → DateTime
    → CommandCompletion
    → Exec InMemoryOrchestrationStore (Unit {0})
unfolding end_command completed_entry
complete_command consumer_name command_id expected_claimed_until completed_at retain_until
      completion =
    end_command consumer_name command_id expected_claimed_until
      (completed_entry completed_at retain_until completion)

unfoldable pub retried_entry : DateTime → ProcessingFailure → CommandInboxEntry → CommandInboxEntry
retried_entry retry_at failure entry = record entry {
  status = pending;
  attempt_count = u32_succ entry.attempt_count;
  available_at = retry_at;
  claimed_by = none;
  claimed_until = none;
  last_error_class = some failure.class;
  last_error_code = some failure.code;
  last_error_detail = some failure.detail;
  retain_until = none;
}

unfoldable pub schedule_command_retry :
    String
    → Uuid
    → DateTime
    → DateTime
    → ProcessingFailure
    → Exec InMemoryOrchestrationStore (Unit {0})
unfolding end_command retried_entry
schedule_command_retry consumer_name command_id expected_claimed_until retry_at failure =
    end_command consumer_name command_id expected_claimed_until (retried_entry retry_at failure)

unfoldable pub quarantined_entry : CommandQuarantine → CommandInboxEntry → CommandInboxEntry
quarantined_entry quarantine entry = record entry {
  status = quarantined;
  attempt_count = u32_succ entry.attempt_count;
  claimed_by = none;
  claimed_until = none;
  last_error_class = some quarantine.failure.class;
  last_error_code = some quarantine.failure.code;
  last_error_detail = some quarantine.failure.detail;
  quarantined_at = some quarantine.quarantined_at;
  quarantine_reason = some quarantine.reason;
  retain_until = some quarantine.retain_until;
}

unfoldable pub quarantine_command :
    String → Uuid → DateTime → CommandQuarantine → Exec InMemoryOrchestrationStore (Unit {0})
unfolding end_command quarantined_entry
quarantine_command consumer_name command_id expected_claimed_until quarantine =
    end_command consumer_name command_id expected_claimed_until (quarantined_entry quarantine)
