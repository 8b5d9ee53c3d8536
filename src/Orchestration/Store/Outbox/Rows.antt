-- ===== src/Orchestration/Store/Outbox/Rows.antt =====
-- apps/backend/crates/orchestration/src/store.rs: what each operation of the outbox makes of one
-- message.
use pi_musubi_core.Prelude.{
  ℕ, String, ◌≡◌, ◌≢◌, Bool, true, false, Option, none, some, arith, nat_eq,
}
use pi_musubi_core.Orchestration.Model.{
  DateTime, NewOutboxMessage, OutboxMessage, OutboxAttempt, DeliveryReceipt, ProcessingFailure,
  QuarantineReason, processing, published, failed, quarantined,
}
use pi_musubi_core.Orchestration.Store.Outbox.{
  stored_message, claimed, published_message, retried_message, quarantined_message,
}

abbrev pub is_some {ℓ} : {A : Type ℓ} → Option A → Bool
is_some none = false
is_some (some _) = true

-- A lease stands on a message in `processing` and on no other; a finished message has the stamps
-- of its end. The status `failed` is never used.
pub record IsMessage (m : OutboxMessage) : Type 0 where
  pub free : m.delivery_status ≢ processing → (m.claimed_by ≡ none) × (m.claimed_until ≡ none)
  pub leased :
      m.delivery_status ≡ processing
      → (is_some m.claimed_by ≡ true) × (is_some m.claimed_until ≡ true)
  pub published_stamps :
      m.delivery_status ≡ published
      → (is_some m.published_at ≡ true)
        × (is_some m.retain_until ≡ true)
        × (is_some m.published_external_idempotency_key ≡ true)
  pub quarantined_stamps :
      m.delivery_status ≡ quarantined
      → (is_some m.quarantined_at ≡ true)
        × (is_some m.retain_until ≡ true)
        × (is_some m.quarantine_reason ≡ true)
  pub not_failed : m.delivery_status ≢ failed

-- What no operation changes.
pub record SameIdentity (m n : OutboxMessage) : Type 0 where
  pub event_id : m.event_id ≡ n.event_id
  pub idempotency_key : m.idempotency_key ≡ n.idempotency_key
  pub causal_order : m.causal_order ≡ n.causal_order
  pub payload : m.payload_json ≡ n.payload_json
  pub payload_hash : m.payload_hash ≡ n.payload_hash
  pub schema_version : m.schema_version ≡ n.schema_version
  pub created_at : m.created_at ≡ n.created_at

pub record Keeps (change : OutboxMessage → OutboxMessage) : Type 0 where
  pub identity : (m : OutboxMessage) → SameIdentity (change m) m
  pub message : (m : OutboxMessage) → IsMessage m → IsMessage (change m)

pub stored_message-IsMessage :
    (n : NewOutboxMessage) (order : ℕ) → IsMessage (stored_message n order)
unfolding stored_message
stored_message-IsMessage n order = ground arith

pub claimed-Keeps : (relay : String) (until : DateTime) → Keeps (claimed relay until)
unfolding claimed
claimed-Keeps relay until = record { identity = λ m. ground arith; message = λ m v. ground arith }

pub published-Keeps :
    (retain : DateTime) (r : DeliveryReceipt) (a : OutboxAttempt)
    → Keeps (published_message retain r a)
unfolding published_message
published-Keeps retain r a = record { identity = λ m. ground arith; message = λ m v. ground arith }

pub retried-Keeps :
    (at : DateTime) (f : ProcessingFailure) (a : OutboxAttempt) → Keeps (retried_message at f a)
unfolding retried_message
retried-Keeps at f a = record { identity = λ m. ground arith; message = λ m v. ground arith }

pub quarantined-Keeps :
    (at retain : DateTime) (q : QuarantineReason) (f : ProcessingFailure) (a : OutboxAttempt)
    → Keeps (quarantined_message at retain q f a)
unfolding quarantined_message
quarantined-Keeps at retain q f a = record {
  identity = λ m. ground arith;
  message = λ m v. ground arith;
}
