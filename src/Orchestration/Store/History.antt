-- ===== src/Orchestration/Store/History.antt =====
-- apps/backend/crates/orchestration/src/store.rs: the operations of `OrchestrationStore` as calls,
-- and what holds after any sequence of them.
pub mod Run
pub mod Finished
use pi_musubi_core.Prelude.{
  ℕ, suc, ◌+◌, ◌^◌, ◌≤◌, ◌<◌, String, ◌≡◌, refl, List, [], ◌∷◌, arith, nat_eq, none, some, inl, inr,
  length,
}
use pi_musubi_core.HashMap.{get}
use pi_musubi_core.Orchestration.Model.{
  Uuid, DateTime, WriterReadSource, AuthoritativeChange, NewOutboxMessage, OutboxMessage,
  OutboxAttempt, DeliveryReceipt, ProcessingFailure, QuarantineReason, CommandEnvelope,
  CommandCompletion, CommandQuarantine, command_key_eq,
}
use pi_musubi_core.Orchestration.Store.{InMemoryOrchestrationStore, default, attempts_of}
use pi_musubi_core.Orchestration.Store.Outbox.{
  commit_authoritative_write, claim_ready_outbox, mark_outbox_published, schedule_outbox_retry,
  quarantine_outbox, published_message, retried_message, quarantined_message, committed,
}
use pi_musubi_core.Orchestration.Store.Outbox.Cases.{commit_cases, claim_cases, end_cases}
use pi_musubi_core.Orchestration.Store.Outbox.Rows.{
  published-Keeps, retried-Keeps, quarantined-Keeps as quarantined_message-Keeps,
}
use pi_musubi_core.Orchestration.Store.Outbox.Valid.{
  IsOutboxOf, commit_authoritative_write-IsOutbox, claim_ready_outbox-IsOutbox,
  end_attempt-IsOutbox,
}
use pi_musubi_core.Orchestration.Store.Outbox.Attempts.{
  IsLogged, commit_authoritative_write-IsLogged, claim_ready_outbox-IsLogged, end_attempt-IsLogged,
}
use pi_musubi_core.Orchestration.Store.Inbox.{
  begin_command, complete_command, schedule_command_retry, quarantine_command,
}
use pi_musubi_core.Orchestration.Store.Inbox.Cases.{begin_cases, end_command_cases}
use pi_musubi_core.Orchestration.Store.Inbox.Valid.{
  IsInboxOf, begin_command-IsInbox, end_command-IsInbox, completed-Keeps,
  retried-Keeps as retried_entry-Keeps, quarantined-Keeps,
}
use pi_musubi_core.Orchestration.Store.Prune.{prune_coordination}
use pi_musubi_core.Orchestration.Store.Prune.Valid.{prune-IsOutbox, prune-IsLogged, prune-IsInbox}

-- A call of the trait, with its arguments. A report on an attempt names its event twice; the
-- runtime gives the same event both times, and `OwnReport` says so.
pub data Call : Type 0 where
  commit : WriterReadSource → AuthoritativeChange → NewOutboxMessage → Call
  claim : WriterReadSource → String → DateTime → DateTime → Call
  publish : Uuid → DateTime → DeliveryReceipt → OutboxAttempt → Call
  retry : Uuid → DateTime → ProcessingFailure → OutboxAttempt → Call
  quarantine :
      Uuid → DateTime → DateTime → QuarantineReason → ProcessingFailure → OutboxAttempt → Call
  begin : WriterReadSource → String → CommandEnvelope → DateTime → DateTime → Call
  complete : String → Uuid → DateTime → DateTime → DateTime → CommandCompletion → Call
  retry_command : String → Uuid → DateTime → DateTime → ProcessingFailure → Call
  quarantine_of_command : String → Uuid → DateTime → CommandQuarantine → Call
  prune : DateTime → Call

abbrev pub OwnReport : Call → Type 0
OwnReport (publish event_id _ _ attempt) = attempt.event_id ≡ event_id
OwnReport (retry event_id _ _ attempt) = attempt.event_id ≡ event_id
OwnReport (quarantine event_id _ _ _ _ attempt) = attempt.event_id ≡ event_id
OwnReport _ = Unit

-- The store after a call, whether it succeeds or fails.
unfoldable pub step : InMemoryOrchestrationStore → Call → InMemoryOrchestrationStore
step s (commit source change message) = (commit_authoritative_write source change message s).1
step s (claim source relay now until) = (claim_ready_outbox source relay now until s).1
step s (publish event_id retain_until receipt attempt) =
    (mark_outbox_published event_id retain_until receipt attempt s).1
step s (retry event_id retry_at failure attempt) =
    (schedule_outbox_retry event_id retry_at failure attempt s).1
step s (quarantine event_id at retain_until reason failure attempt) =
    (quarantine_outbox event_id at retain_until reason failure attempt s).1
step s (begin source consumer command now until) =
    (begin_command source consumer command now until s).1
step s (complete consumer id expected at retain_until completion) =
    (complete_command consumer id expected at retain_until completion s).1
step s (retry_command consumer id expected retry_at failure) =
    (schedule_command_retry consumer id expected retry_at failure s).1
step s (quarantine_of_command consumer id expected q) =
    (quarantine_command consumer id expected q s).1
step s (prune now) = (prune_coordination now s).1

unfoldable pub run : InMemoryOrchestrationStore → List Call → InMemoryOrchestrationStore
run s [] = s
run s (c ∷ cs) = run (step s c) cs

pub record IsStore (s : InMemoryOrchestrationStore) : Type 0 where
  pub outbox : IsOutboxOf s
  pub logged : IsLogged s
  pub inbox : IsInboxOf s

module _ (s : InMemoryOrchestrationStore) where
  step-IsOutbox : (c : Call) → IsStore s → s.next_causal_order + 1 < 2 ^ 63 → IsOutboxOf (step s c)
  unfolding step mark_outbox_published schedule_outbox_retry quarantine_outbox complete_command
      schedule_command_retry quarantine_command
  step-IsOutbox (commit source change message) v room =
      commit_authoritative_write-IsOutbox source change message s v.outbox room
  step-IsOutbox (claim source relay now until) v room =
      claim_ready_outbox-IsOutbox source relay now until s v.outbox
  step-IsOutbox (publish k retain receipt a) v room =
      end_attempt-IsOutbox k a _ s (published-Keeps retain receipt a) v.outbox
  step-IsOutbox (retry k at f a) v room =
      end_attempt-IsOutbox k a _ s (retried-Keeps at f a) v.outbox
  step-IsOutbox (quarantine k at retain q f a) v room =
      end_attempt-IsOutbox k a _ s (quarantined_message-Keeps at retain q f a) v.outbox
  step-IsOutbox (begin source consumer c now until) v room =
      begin_cases IsOutboxOf s source consumer c now until v.outbox (λ _. v.outbox)
        (λ _ _ _. v.outbox)
  step-IsOutbox (complete consumer id expected at retain c) v room =
      end_command_cases IsOutboxOf s consumer id expected _ v.outbox (λ _ _ _. v.outbox)
  step-IsOutbox (retry_command consumer id expected at f) v room =
      end_command_cases IsOutboxOf s consumer id expected _ v.outbox (λ _ _ _. v.outbox)
  step-IsOutbox (quarantine_of_command consumer id expected q) v room =
      end_command_cases IsOutboxOf s consumer id expected _ v.outbox (λ _ _ _. v.outbox)
  step-IsOutbox (prune now) v room = prune-IsOutbox now s v.outbox v.logged

  step-IsLogged : (c : Call) → OwnReport c → IsStore s → IsLogged (step s c)
  unfolding step mark_outbox_published schedule_outbox_retry quarantine_outbox complete_command
      schedule_command_retry quarantine_command published_message retried_message
      quarantined_message
  step-IsLogged (commit source change message) own v =
      commit_authoritative_write-IsLogged source change message s v.logged
  step-IsLogged (claim source relay now until) own v =
      claim_ready_outbox-IsLogged source relay now until s v.logged
  step-IsLogged (publish k retain receipt a) own v =
      end_attempt-IsLogged k a _ s own (λ m. refl) v.logged
  step-IsLogged (retry k at f a) own v = end_attempt-IsLogged k a _ s own (λ m. refl) v.logged
  step-IsLogged (quarantine k at retain q f a) own v =
      end_attempt-IsLogged k a _ s own (λ m. refl) v.logged
  step-IsLogged (begin source consumer c now until) own v =
      begin_cases IsLogged s source consumer c now until v.logged (λ _. v.logged)
        (λ _ _ _. v.logged)
  step-IsLogged (complete consumer id expected at retain c) own v =
      end_command_cases IsLogged s consumer id expected _ v.logged (λ _ _ _. v.logged)
  step-IsLogged (retry_command consumer id expected at f) own v =
      end_command_cases IsLogged s consumer id expected _ v.logged (λ _ _ _. v.logged)
  step-IsLogged (quarantine_of_command consumer id expected q) own v =
      end_command_cases IsLogged s consumer id expected _ v.logged (λ _ _ _. v.logged)
  step-IsLogged (prune now) own v = prune-IsLogged now s v.outbox v.logged

  pub step-IsInbox : (c : Call) → IsInboxOf s → IsInboxOf (step s c)
  unfolding step mark_outbox_published schedule_outbox_retry quarantine_outbox complete_command
      schedule_command_retry quarantine_command committed
  step-IsInbox (commit source change message) v =
      commit_cases IsInboxOf s source change message v (λ _ _. v)
  step-IsInbox (claim source relay now until) v =
      claim_cases IsInboxOf s source relay now until v (λ _ _ _ _. v)
  step-IsInbox (publish k retain receipt a) v = end_cases IsInboxOf s k a _ v (λ _ _ _. v)
  step-IsInbox (retry k at f a) v = end_cases IsInboxOf s k a _ v (λ _ _ _. v)
  step-IsInbox (quarantine k at retain q f a) v = end_cases IsInboxOf s k a _ v (λ _ _ _. v)
  step-IsInbox (begin source consumer c now until) v =
      begin_command-IsInbox source consumer c now until s v
  step-IsInbox (complete consumer id expected at retain c) v =
      end_command-IsInbox consumer id expected _ s (completed-Keeps at retain c) v
  step-IsInbox (retry_command consumer id expected at f) v =
      end_command-IsInbox consumer id expected _ s (retried_entry-Keeps at f) v
  step-IsInbox (quarantine_of_command consumer id expected q) v =
      end_command-IsInbox consumer id expected _ s (quarantined-Keeps q) v
  step-IsInbox (prune now) v = prune-IsInbox now s v

  -- A call keeps the invariant, whether it succeeds or fails, while the counter of causal orders
  -- has room and a report on an attempt names one event.
  pub step-IsStore :
      (c : Call) → OwnReport c → s.next_causal_order + 1 < 2 ^ 63 → IsStore s → IsStore (step s c)
  step-IsStore c own room v = record {
    outbox = step-IsOutbox c v room;
    logged = step-IsLogged c own v;
    inbox = step-IsInbox c v.inbox;
  }
