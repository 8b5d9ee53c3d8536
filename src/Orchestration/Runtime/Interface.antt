-- ===== src/Orchestration/Runtime/Interface.antt =====
-- apps/backend/crates/orchestration/src/store.rs: the trait `OrchestrationStore`, and its
-- implementation in memory.
use pi_musubi_core.Prelude.{String, Option}
use pi_musubi_core.Orchestration.Model.{
  Uuid, DateTime, WriterReadSource, AuthoritativeChange, NewOutboxMessage, OutboxAttempt,
  ClaimedOutboxMessage, DeliveryReceipt, ProcessingFailure, QuarantineReason, CommandEnvelope,
  CommandBeginOutcome, CommandCompletion, CommandQuarantine, PruneOutcome,
}
use pi_musubi_core.Orchestration.Model.Exec.{Exec}
use pi_musubi_core.Orchestration.Store.{InMemoryOrchestrationStore}
use pi_musubi_core.Orchestration.Store.Outbox
use pi_musubi_core.Orchestration.Store.Inbox
use pi_musubi_core.Orchestration.Store.Prune

pub record OrchestrationStore (S : Type 0) : Type 0 where
  pub commit_authoritative_write :
      WriterReadSource → AuthoritativeChange → NewOutboxMessage → Exec S (Unit {0})
  pub claim_ready_outbox :
      WriterReadSource → String → DateTime → DateTime → Exec S (Option ClaimedOutboxMessage)
  pub mark_outbox_published : Uuid → DateTime → DeliveryReceipt → OutboxAttempt → Exec S (Unit {0})
  pub schedule_outbox_retry :
      Uuid → DateTime → ProcessingFailure → OutboxAttempt → Exec S (Unit {0})
  pub quarantine_outbox :
      Uuid
      → DateTime
      → DateTime
      → QuarantineReason
      → ProcessingFailure
      → OutboxAttempt
      → Exec S (Unit {0})
  pub begin_command :
      WriterReadSource → String → CommandEnvelope → DateTime → DateTime → Exec S CommandBeginOutcome
  pub complete_command :
      String → Uuid → DateTime → DateTime → DateTime → CommandCompletion → Exec S (Unit {0})
  pub schedule_command_retry :
      String → Uuid → DateTime → DateTime → ProcessingFailure → Exec S (Unit {0})
  pub quarantine_command : String → Uuid → DateTime → CommandQuarantine → Exec S (Unit {0})
  pub prune_coordination : DateTime → Exec S PruneOutcome

-- `impl OrchestrationStore for InMemoryOrchestrationStore`
abbrev pub in_memory : OrchestrationStore InMemoryOrchestrationStore
in_memory = record {
  commit_authoritative_write = Outbox.commit_authoritative_write;
  claim_ready_outbox = Outbox.claim_ready_outbox;
  mark_outbox_published = Outbox.mark_outbox_published;
  schedule_outbox_retry = Outbox.schedule_outbox_retry;
  quarantine_outbox = Outbox.quarantine_outbox;
  begin_command = Inbox.begin_command;
  complete_command = Inbox.complete_command;
  schedule_command_retry = Inbox.schedule_command_retry;
  quarantine_command = Inbox.quarantine_command;
  prune_coordination = Prune.prune_coordination;
}
