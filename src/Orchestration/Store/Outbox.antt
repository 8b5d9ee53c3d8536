-- ===== src/Orchestration/Store/Outbox.antt =====
-- apps/backend/crates/orchestration/src/store.rs: the operations of the outbox.
pub mod Cases
pub mod Rows
pub mod Valid
pub mod Claim
pub mod Attempts
pub mod Lease
use pi_musubi_core.Prelude.{
  ℕ, ◌+◌, String, ◌≡◌, Bool, true, false, ◌&&◌, ◌||◌, Option, none, some, List, [], ◌∷◌, ◌++◌,
  Result, ok, err, PartialEq, ◌==◌, nat_eq, string_eq, option_eq, filter, any, if◌then◌else◌, ltb,
  leb,
}
use pi_musubi_core.HashMap.{HashMap, get, insert, contains_key, values}
use pi_musubi_core.Orchestration.Model.{
  Uuid, DateTime, OrchestrationError, WriterReadSource, AuthoritativeChange, NewOutboxMessage,
  OutboxMessage, OutboxAttempt, OutboxDeliveryStatus, ClaimedOutboxMessage, DeliveryReceipt,
  ProcessingFailure, QuarantineReason, event_already_exists, idempotency_key_already_exists,
  outbox_message_not_found, stale_outbox_claim, pending, processing, published, failed, quarantined,
}
use pi_musubi_core.Orchestration.Model.Exec.{Exec}
use pi_musubi_core.Orchestration.Store.{
  InMemoryOrchestrationStore, u32_succ, i64_succ, i64_rank, ensure_writer, outbox_attempt_matches,
}

-- The row that a new message is stored as.
unfoldable pub stored_message : NewOutboxMessage → ℕ → OutboxMessage
stored_message message causal_order = record {
  event_id = message.event_id;
  idempotency_key = message.idempotency_key;
  stream_key = message.stream_key;
  aggregate_type = message.aggregate_type;
  aggregate_id = message.aggregate_id;
  event_type = message.event_type;
  schema_version = message.schema_version;
  payload_json = message.payload_json;
  payload_hash = message.payload_hash;
  delivery_status = pending;
  attempt_count = 0;
  available_at = message.available_at;
  created_at = message.created_at;
  published_at = none;
  last_attempt_at = none;
  last_error_class = none;
  last_error_code = none;
  last_error_detail = none;
  claimed_by = none;
  claimed_until = none;
  quarantined_at = none;
  quarantine_reason = none;
  retain_until = none;
  causal_order = causal_order;
  published_external_idempotency_key = none;
}

-- The store after an accepted write.
unfoldable pub committed :
    AuthoritativeChange → NewOutboxMessage → InMemoryOrchestrationStore → InMemoryOrchestrationStore
unfolding stored_message
committed change message s = record s {
  next_causal_order = i64_succ s.next_causal_order;
  authoritative_changes = s.authoritative_changes ++ change ∷ [];
  outbox_messages =
      insert message.event_id (stored_message message (i64_succ s.next_causal_order))
        s.outbox_messages;
}

-- `values().any(|existing| existing.idempotency_key == message.idempotency_key)`
unfoldable pub is_key_used : Uuid → InMemoryOrchestrationStore → Bool
unfolding values
is_key_used key s = any (λ existing. existing.idempotency_key == key) (values s.outbox_messages)

unfoldable pub commit_authoritative_write :
    WriterReadSource
    → AuthoritativeChange
    → NewOutboxMessage
    → Exec InMemoryOrchestrationStore (Unit {0})
unfolding ensure_writer committed is_key_used contains_key
commit_authoritative_write source change message s = elim (ensure_writer source) [
  | err e ↦ (err e, s)
  | ok _ ↦
      if contains_key message.event_id s.outbox_messages
      then (err (event_already_exists message.event_id), s)
      else if is_key_used message.idempotency_key s
      then (err (idempotency_key_already_exists message.idempotency_key), s)
      else (ok tt, committed change message s)
]

-- The filter of `claim_ready_outbox`.
abbrev pub is_open : OutboxDeliveryStatus → Bool
is_open pending = true
is_open processing = true
is_open _ = false

abbrev pub lease_over : Option DateTime → DateTime → Bool
lease_over none now = true
lease_over (some existing_claim) now = leb existing_claim now

unfoldable pub is_ready : DateTime → OutboxMessage → Bool
is_ready now message =
    is_open message.delivery_status
    && (leb message.available_at now && lease_over message.claimed_until now)

-- The order of the key `(message.available_at, message.causal_order)`.
unfoldable pub key_lt : OutboxMessage → OutboxMessage → Bool
key_lt a b =
    ltb a.available_at b.available_at
    || (a.available_at == b.available_at && ltb (i64_rank a.causal_order) (i64_rank b.causal_order))

-- `min_by_key`: the first of the least.
unfoldable pub min_by_key : List OutboxMessage → Option OutboxMessage
min_by_key [] = none
min_by_key (m ∷ ms) = elim (min_by_key ms) [
  | none ↦ some m
  | some n ↦ if key_lt n m then some n else some m
]

unfoldable pub claimed : String → DateTime → OutboxMessage → OutboxMessage
claimed relay_name claimed_until message = record message {
  delivery_status = processing;
  claimed_by = some relay_name;
  claimed_until = some claimed_until;
}

-- A write of `row` through `get_mut`.
abbrev pub put_message :
    Uuid → OutboxMessage → InMemoryOrchestrationStore → InMemoryOrchestrationStore
put_message k row s = record s { outbox_messages = insert k row s.outbox_messages }

unfoldable pub candidate : DateTime → InMemoryOrchestrationStore → Option OutboxMessage
unfolding is_ready key_lt min_by_key values
candidate now s = min_by_key (filter (is_ready now) (values s.outbox_messages))

unfoldable pub claim_ready_outbox :
    WriterReadSource
    → String
    → DateTime
    → DateTime
    → Exec InMemoryOrchestrationStore (Option ClaimedOutboxMessage)
unfolding ensure_writer candidate claimed
claim_ready_outbox source relay_name now claimed_until s = elim (ensure_writer source) [
  | err e ↦ (err e, s)
  | ok _ ↦ elim (candidate now s) [
    | none ↦ (ok none, s)
    | some found ↦ elim (get found.event_id s.outbox_messages) [
      | none ↦ (err (outbox_message_not_found found.event_id), s)
      | some message ↦ (
        ok (
            some (record {
              message = claimed relay_name claimed_until message;
              relay_name = relay_name;
              claimed_at = now;
              claimed_until = claimed_until;
            })),
        put_message found.event_id (claimed relay_name claimed_until message) s,
      )
    ]
  ]
]

-- The store after an attempt has ended: the row written, and the attempt logged.
abbrev pub ended :
    Uuid → OutboxAttempt → OutboxMessage → InMemoryOrchestrationStore → InMemoryOrchestrationStore
ended event_id attempt row s = record s {
  outbox_messages = insert event_id row s.outbox_messages;
  outbox_attempts = s.outbox_attempts ++ attempt ∷ [];
}

-- What the three operations that end an attempt share: the look-up, the test of the claim, the
-- write, and the entry in the attempt log.
unfoldable pub end_attempt :
    Uuid
    → OutboxAttempt
    → (OutboxMessage → OutboxMessage)
    → Exec InMemoryOrchestrationStore (Unit {0})
unfolding outbox_attempt_matches
end_attempt event_id attempt change s = elim (get event_id s.outbox_messages) [
  | none ↦ (err (outbox_message_not_found event_id), s)
  | some message ↦
      if outbox_attempt_matches message attempt
      then (ok tt, ended event_id attempt (change message) s)
      else (err (stale_outbox_claim event_id), s)
]

unfoldable pub published_message :
    DateTime → DeliveryReceipt → OutboxAttempt → OutboxMessage → OutboxMessage
published_message retain_until receipt attempt message = record message {
  delivery_status = published;
  attempt_count = u32_succ message.attempt_count;
  published_at = some attempt.finished_at;
  last_attempt_at = some attempt.finished_at;
  last_error_class = none;
  last_error_code = none;
  last_error_detail = none;
  claimed_by = none;
  claimed_until = none;
  retain_until = some retain_until;
  published_external_idempotency_key = some receipt.external_idempotency_key;
}

unfoldable pub mark_outbox_published :
    Uuid → DateTime → DeliveryReceipt → OutboxAttempt → Exec InMemoryOrchestrationStore (Unit {0})
unfolding end_attempt published_message
mark_outbox_published event_id retain_until receipt attempt =
    end_attempt event_id attempt (published_message retain_until receipt attempt)

unfoldable pub retried_message :
    DateTime → ProcessingFailure → OutboxAttempt → OutboxMessage → OutboxMessage
retried_message retry_at failure attempt message = record message {
  delivery_status = pending;
  attempt_count = u32_succ message.attempt_count;
  available_at = retry_at;
  last_attempt_at = some attempt.finished_at;
  last_error_class = some failure.class;
  last_error_code = some failure.code;
  last_error_detail = some failure.detail;
  claimed_by = none;
  claimed_until = none;
  retain_until = none;
}

unfoldable pub schedule_outbox_retry :
    Uuid → DateTime → ProcessingFailure → OutboxAttempt → Exec InMemoryOrchestrationStore (Unit {0})
unfolding end_attempt retried_message
schedule_outbox_retry event_id retry_at failure attempt =
    end_attempt event_id attempt (retried_message retry_at failure attempt)

unfoldable pub quarantined_message :
    DateTime
    → DateTime
    → QuarantineReason
    → ProcessingFailure
    → OutboxAttempt
    → OutboxMessage
    → OutboxMessage
quarantined_message quarantined_at retain_until reason failure attempt message = record message {
  delivery_status = quarantined;
  attempt_count = u32_succ message.attempt_count;
  last_attempt_at = some attempt.finished_at;
  last_error_class = some failure.class;
  last_error_code = some failure.code;
  last_error_detail = some failure.detail;
  claimed_by = none;
  claimed_until = none;
  quarantined_at = some quarantined_at;
  quarantine_reason = some reason;
  retain_until = some retain_until;
}

unfoldable pub quarantine_outbox :
    Uuid
    → DateTime
    → DateTime
    → QuarantineReason
    → ProcessingFailure
    → OutboxAttempt
    → Exec InMemoryOrchestrationStore (Unit {0})
unfolding end_attempt quarantined_message
quarantine_outbox event_id quarantined_at retain_until reason failure attempt =
    end_attempt event_id attempt
      (quarantined_message quarantined_at retain_until reason failure attempt)
