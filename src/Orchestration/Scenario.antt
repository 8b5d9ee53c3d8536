-- ===== src/Orchestration/Scenario.antt =====
-- The inputs of the runs of the orchestration crate.
use pi_musubi_core.Prelude.{
  refl, none, some, List, [], ◌∷◌, arith, nat_eq, string_eq, option_eq, ◌+◌,
}
use pi_musubi_core.Prelude.Int.{ℤ, pos, pos_part}
use pi_musubi_core.HashMap.{get, insert, remove, values}
use pi_musubi_core.Orchestration.Json.{null}
use pi_musubi_core.Orchestration.Model.{
  AuthoritativeChange, NewOutboxMessage, OutboxAttempt, command_key_beq, DeliveryReceipt,
  primary_writer, CommandEnvelope, CommandCompletion, command_key_eq,
}
use pi_musubi_core.Orchestration.Store.{InMemoryOrchestrationStore, default}
use pi_musubi_core.Orchestration.Store.Outbox.{
  commit_authoritative_write, claim_ready_outbox, mark_outbox_published, schedule_outbox_retry,
  quarantine_outbox,
}
use pi_musubi_core.Orchestration.Store.Inbox.{
  begin_command, complete_command, schedule_command_retry, quarantine_command,
}
use pi_musubi_core.Orchestration.Store.Prune.{
  prune_coordination, is_message_expired, is_entry_expired, archive_message, archive_messages,
  archive_entry, archive_entries, expired_event_ids, expired_command_keys,
}
use pi_musubi_core.Orchestration.Store.History.{
  Call, commit, claim, publish, begin, complete, step, run, IsStore,
}
use pi_musubi_core.Orchestration.Store.History.Run.{run-IsStore}
use pi_musubi_core.Orchestration.Policy.{Chrono}
use pi_musubi_core.Orchestration.Runtime.{Config, deliver_ready_outbox, consume_command}

-- All that a run unfolds.
unfoldable pub program : Unit {0}
unfolding step run get insert remove command_key_beq commit_authoritative_write claim_ready_outbox
    mark_outbox_published schedule_outbox_retry quarantine_outbox begin_command complete_command
    schedule_command_retry quarantine_command archive_message archive_messages archive_entry
    archive_entries expired_event_ids expired_command_keys is_message_expired is_entry_expired
    prune_coordination values deliver_ready_outbox consume_command
program = tt

-- Durations in seconds.
abbrev pub clock : Chrono
clock = record {
  TimeDelta = ℤ;
  num_seconds = λ d. d;
  seconds = λ n. n;
  add = λ t d. t + pos_part d;
}

abbrev pub config : Config clock
config = record {
  retry_policy = record {
    max_attempts = 3;
    base_delay = pos 5;
    max_delay = pos 60;
    max_jitter = pos 0;
  };
  retention_policy = record {
    published_outbox_for = pos 100;
    quarantined_outbox_for = pos 200;
    completed_command_for = pos 100;
    quarantined_command_for = pos 200;
  };
  schema_policy = record { max_supported_schema_version = pos 1; compatibility_window = pos 50 };
  claim_lease_for = pos 30;
}

abbrev pub change : AuthoritativeChange
change = record {
  aggregate_type = "promise";
  aggregate_id = 9;
  change_type = "created";
  payload_json = null;
}

abbrev pub message : NewOutboxMessage
message = record {
  event_id = 7;
  idempotency_key = 70;
  stream_key = "promise";
  aggregate_type = "promise";
  aggregate_id = 9;
  event_type = "promise.created";
  schema_version = pos 1;
  payload_json = null;
  payload_hash = "00";
  available_at = 10;
  created_at = 10;
}

abbrev pub command : CommandEnvelope
command = record {
  command_id = 5;
  source_event_id = 7;
  command_type = "open_hold";
  schema_version = pos 1;
  payload_json = null;
  payload_hash = "00";
}

abbrev pub attempt : OutboxAttempt
attempt = record {
  event_id = 7;
  attempt_number = 1;
  relay_name = "a";
  claimed_at = 10;
  claimed_until = 40;
  finished_at = 10;
  failure_class = none;
  failure_code = none;
  failure_detail = none;
  external_idempotency_key = some "k";
}

abbrev pub receipt : DeliveryReceipt
receipt = record { external_idempotency_key = "k" }

abbrev pub completion : CommandCompletion
completion = record { result_type = "held"; result_json = null }

abbrev pub calls : List Call
calls =
    commit primary_writer change message
    ∷ claim primary_writer "a" 10 40
    ∷ begin primary_writer "c" command 10 40
    ∷ []

abbrev pub done_calls : List Call
done_calls =
    commit primary_writer change message
    ∷ claim primary_writer "a" 10 40
    ∷ publish 7 110 receipt attempt
    ∷ begin primary_writer "c" command 10 40
    ∷ complete "c" 5 40 10 110 completion
    ∷ []

abbrev pub one_message : InMemoryOrchestrationStore
one_message = run default (commit primary_writer change message ∷ [])

abbrev pub leased : InMemoryOrchestrationStore
leased = run default calls

abbrev pub done : InMemoryOrchestrationStore
done = run default done_calls

pub one_message-IsStore : IsStore one_message
one_message-IsStore = run-IsStore (commit primary_writer change message ∷ []) (tt, tt) (omega arith)

pub done-IsStore : IsStore done
done-IsStore = run-IsStore done_calls (tt, (tt, (refl, (tt, (tt, tt))))) (omega arith)

abbrev pub other_message : NewOutboxMessage
other_message = record message { event_id = 8; idempotency_key = 80 }

abbrev pub two_commits : List Call
two_commits = commit primary_writer change message ∷ commit primary_writer change other_message ∷ []

abbrev pub two_messages : InMemoryOrchestrationStore
two_messages = run default two_commits

pub two_messages-IsStore : IsStore two_messages
two_messages-IsStore = run-IsStore two_commits (tt, (tt, tt)) (omega arith)
