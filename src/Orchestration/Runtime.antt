-- ===== src/Orchestration/Runtime.antt =====
-- apps/backend/crates/orchestration/src/runtime.rs: `OrchestrationRuntime` over any store. The
-- trait `OrchestrationStore` is a record of operations, chrono a parameter, and the futures that
-- publish and handle are functions.
pub mod Interface
pub mod Deliver
pub mod Consume
pub mod Once
pub mod Drain
pub mod Rounds
mod Tests
use pi_musubi_core.Prelude.{
  ℕ, ◌+◌, String, Bool, true, false, Option, none, some, Result, ok, err, if◌then◌else◌, ltb,
}
use pi_musubi_core.Orchestration.Model.{
  Uuid, DateTime, OrchestrationError, WriterReadSource, primary_writer, AuthoritativeChange,
  NewOutboxMessage, OutboxMessage, OutboxAttempt, ClaimedOutboxMessage, DeliveryReceipt,
  ProcessingFailure, QuarantineReason, RetryClass, transient, permanent, deferred, DeliveryOutcome,
  idle, published_event, retry_scheduled, quarantined_event, attempt_budget_exceeded,
  stale_outbox_claim, stale_command_claim, CommandEnvelope, CommandInboxEntry, CommandBeginOutcome,
  first_seen, ready_for_retry, duplicate, CommandCompletion, ConsumeOutcome, PruneOutcome, database,
}
use pi_musubi_core.Orchestration.Model.Exec.{Exec}
use pi_musubi_core.Orchestration.Store.{u32_succ}
use pi_musubi_core.Orchestration.Policy.{
  Chrono, RetryPolicy, RetentionPolicy, SchemaCompatibilityPolicy, next_retry_at, classify,
}
use pi_musubi_core.Orchestration.Runtime.Interface.{OrchestrationStore}

-- The policies of a runtime.
pub record Config (chrono : Chrono) : Type 0 where
  pub retry_policy : RetryPolicy chrono
  pub retention_policy : RetentionPolicy chrono
  pub schema_policy : SchemaCompatibilityPolicy chrono
  pub claim_lease_for : chrono.TimeDelta

-- The `?` of an action.
abbrev pub proceed :
    {S A B : Type 0}
    → Result OrchestrationError A × S
    → (A → Exec S B)
    → Result OrchestrationError B × S
proceed (ok a, s) f = f a s
proceed (err e, s) f = (err e, s)

-- `.map(|()| outcome).or_else(…)`: a stale claim ends in another outcome, and other errors stay.
abbrev pub settle_outbox :
    DeliveryOutcome
    → Result OrchestrationError (Unit {0})
    → Result OrchestrationError DeliveryOutcome
settle_outbox outcome (ok _) = ok outcome
settle_outbox outcome (err (stale_outbox_claim _)) = ok idle
settle_outbox outcome (err e) = err e

abbrev pub settle_command :
    ConsumeOutcome
    → ConsumeOutcome
    → Result OrchestrationError (Unit {0})
    → Result OrchestrationError ConsumeOutcome
settle_command outcome stale (ok _) = ok outcome
settle_command outcome stale (err (stale_command_claim _ _)) = ok stale
settle_command outcome stale (err e) = err e

abbrev pub after : {S A B : Type 0} → (A → B) → A × S → B × S
after f (a, s) = (f a, s)

abbrev pub should_retry : RetryClass → ℕ → ℕ → Bool
should_retry transient next_attempt_number max_attempts = ltb next_attempt_number max_attempts
should_retry deferred next_attempt_number max_attempts = true
should_retry permanent next_attempt_number max_attempts = false

-- `if matches!(failure.class, RetryClass::Transient)`
abbrev pub reason_for : RetryClass → QuarantineReason → QuarantineReason
reason_for transient reason = attempt_budget_exceeded
reason_for _ reason = reason

abbrev pub failed_attempt :
    String → ClaimedOutboxMessage → DateTime → ProcessingFailure → OutboxAttempt
failed_attempt relay_name claimed now failure = record {
  event_id = claimed.message.event_id;
  attempt_number = u32_succ claimed.message.attempt_count;
  relay_name = relay_name;
  claimed_at = claimed.claimed_at;
  claimed_until = claimed.claimed_until;
  finished_at = now;
  failure_class = some failure.class;
  failure_code = some failure.code;
  failure_detail = some failure.detail;
  external_idempotency_key = none;
}

abbrev pub published_attempt :
    String → ClaimedOutboxMessage → DateTime → DeliveryReceipt → OutboxAttempt
published_attempt relay_name claimed now receipt = record {
  event_id = claimed.message.event_id;
  attempt_number = u32_succ claimed.message.attempt_count;
  relay_name = relay_name;
  claimed_at = claimed.claimed_at;
  claimed_until = claimed.claimed_until;
  finished_at = now;
  failure_class = none;
  failure_code = none;
  failure_detail = none;
  external_idempotency_key = some receipt.external_idempotency_key;
}

module _ {S : Type 0} (chrono : Chrono) (store : OrchestrationStore S)
    (config : Config chrono) where
  open config use {retry_policy, retention_policy, schema_policy, claim_lease_for}

  unfoldable pub record_authoritative_write :
      AuthoritativeChange → NewOutboxMessage → Exec S (Unit {0})
  record_authoritative_write change message =
      store.commit_authoritative_write primary_writer change message

  unfoldable pub finish_outbox_failure :
      Uuid → DateTime → ℕ → ProcessingFailure → OutboxAttempt → Exec S DeliveryOutcome
  unfolding next_retry_at
  finish_outbox_failure event_id now next_attempt_number failure attempt s =
      let retry_at = next_retry_at chrono retry_policy now event_id next_attempt_number in
      let reason = reason_for failure.class failure.quarantine_reason in
      if should_retry failure.class next_attempt_number retry_policy.max_attempts
      then after (settle_outbox (retry_scheduled event_id retry_at))
          (store.schedule_outbox_retry event_id retry_at failure attempt s)
      else after (settle_outbox (quarantined_event event_id reason)) (
          store.quarantine_outbox event_id now
            (chrono.add now retention_policy.quarantined_outbox_for) reason failure attempt s)

  -- What `deliver_ready_outbox` does once a message is claimed.
  unfoldable pub deliver_claimed :
      String
      → DateTime
      → (ClaimedOutboxMessage → Result ProcessingFailure DeliveryReceipt)
      → ClaimedOutboxMessage
      → Exec S DeliveryOutcome
  unfolding finish_outbox_failure classify
  deliver_claimed relay_name now publish claimed s =
      let event_id = claimed.message.event_id in
      let next_attempt_number = u32_succ claimed.message.attempt_count in
      let fail = λ (failure : ProcessingFailure).
        finish_outbox_failure event_id now next_attempt_number failure
          (failed_attempt relay_name claimed now failure) s in
      elim (classify chrono schema_policy claimed.message.schema_version claimed.message.created_at
        now) [
          | err failure ↦ fail failure
          | ok _ ↦ elim (publish claimed) [
            | ok receipt ↦ after (settle_outbox (published_event event_id)) (
                store.mark_outbox_published event_id
                  (chrono.add now retention_policy.published_outbox_for) receipt
                  (published_attempt relay_name claimed now receipt) s)
            | err failure ↦ fail failure
          ]
        ]

  abbrev deliver_if_some :
      String
      → DateTime
      → (ClaimedOutboxMessage → Result ProcessingFailure DeliveryReceipt)
      → Option ClaimedOutboxMessage
      → Exec S DeliveryOutcome
  deliver_if_some relay_name now publish none s = (ok idle, s)
  deliver_if_some relay_name now publish (some claimed) s =
      deliver_claimed relay_name now publish claimed s

  unfoldable pub deliver_ready_outbox :
      String
      → DateTime
      → (ClaimedOutboxMessage → Result ProcessingFailure DeliveryReceipt)
      → Exec S DeliveryOutcome
  unfolding deliver_claimed
  deliver_ready_outbox relay_name now publish s =
      proceed
        (store.claim_ready_outbox primary_writer relay_name now (chrono.add now claim_lease_for) s)
        (deliver_if_some relay_name now publish)

  unfoldable pub finish_command_failure :
      String → Uuid → DateTime → DateTime → ℕ → ProcessingFailure → Exec S ConsumeOutcome
  unfolding next_retry_at
  finish_command_failure consumer_name command_id expected_claimed_until now next_attempt_number
        failure s =
      let retry_at = next_retry_at chrono retry_policy now command_id next_attempt_number in
      let reason = reason_for failure.class failure.quarantine_reason in
      let stale = ConsumeOutcome.deferred command_id expected_claimed_until in
      if should_retry failure.class next_attempt_number retry_policy.max_attempts
      then after (settle_command (ConsumeOutcome.retry_scheduled command_id retry_at) stale) (
          store.schedule_command_retry consumer_name command_id expected_claimed_until retry_at
            failure s)
      else after (settle_command (ConsumeOutcome.quarantined command_id reason) stale) (
          store.quarantine_command consumer_name command_id expected_claimed_until
            (record {
              quarantined_at = now;
              retain_until = chrono.add now retention_policy.quarantined_command_for;
              reason = reason;
              failure = failure;
            })
            s)

  -- What `consume_command` does with a command that it may handle, once it has the lease's end.
  unfoldable pub handle_claimed :
      String
      → CommandEnvelope
      → DateTime
      → (CommandEnvelope → Result ProcessingFailure CommandCompletion)
      → CommandInboxEntry
      → DateTime
      → Exec S ConsumeOutcome
  unfolding finish_command_failure classify
  handle_claimed consumer_name command now handle entry claimed_until s =
      let command_id = command.command_id in
      let next_attempt_number = u32_succ entry.attempt_count in
      let fail = λ (failure : ProcessingFailure).
        finish_command_failure consumer_name command_id claimed_until now next_attempt_number
          failure s in
      elim (classify chrono schema_policy entry.schema_version entry.first_seen_at now) [
        | err failure ↦ fail failure
        | ok _ ↦ elim (handle command) [
          | ok completion ↦
              after
                (settle_command (ConsumeOutcome.completed command_id)
                  (ConsumeOutcome.deferred command_id claimed_until))
                (store.complete_command consumer_name command_id claimed_until now
                  (chrono.add now retention_policy.completed_command_for) completion s)
          | err failure ↦ fail failure
        ]
      ]

  unfoldable pub handle_entry :
      String
      → CommandEnvelope
      → DateTime
      → (CommandEnvelope → Result ProcessingFailure CommandCompletion)
      → CommandInboxEntry
      → Exec S ConsumeOutcome
  unfolding handle_claimed
  handle_entry consumer_name command now handle entry s = elim entry.claimed_until [
    | none ↦ (err (database "command begin outcome is missing the active claim lease"), s)
    | some claimed_until ↦ handle_claimed consumer_name command now handle entry claimed_until s
  ]

  abbrev consume_begun :
      String
      → CommandEnvelope
      → DateTime
      → (CommandEnvelope → Result ProcessingFailure CommandCompletion)
      → CommandBeginOutcome
      → Exec S ConsumeOutcome
  consume_begun consumer_name command now handle (duplicate _) s =
      (ok (ConsumeOutcome.duplicate command.command_id), s)
  consume_begun consumer_name command now handle (CommandBeginOutcome.deferred entry) s =
      (ok (ConsumeOutcome.deferred command.command_id entry.available_at), s)
  consume_begun consumer_name command now handle (first_seen entry) s =
      handle_entry consumer_name command now handle entry s
  consume_begun consumer_name command now handle (ready_for_retry entry) s =
      handle_entry consumer_name command now handle entry s

  unfoldable pub consume_command :
      String
      → CommandEnvelope
      → DateTime
      → (CommandEnvelope → Result ProcessingFailure CommandCompletion)
      → Exec S ConsumeOutcome
  unfolding handle_entry
  consume_command consumer_name command now handle s =
      proceed
        (store.begin_command primary_writer consumer_name command now
          (chrono.add now claim_lease_for) s)
        (consume_begun consumer_name command now handle)

  unfoldable pub prune_coordination : DateTime → Exec S PruneOutcome
  prune_coordination now = store.prune_coordination now
