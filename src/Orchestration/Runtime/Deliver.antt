-- ===== src/Orchestration/Runtime/Deliver.antt =====
-- apps/backend/crates/orchestration/src/runtime.rs: `deliver_ready_outbox` over the store in
-- memory, against a description of a delivery.
use pi_musubi_core.Prelude.{
  ◌<◌, ◌≤◌, String, ◌≡◌, refl, ◌⊎◌, inl, inr, true, false, some, Result, ok, err, arith, nat_eq,
  string_eq, option_eq, Result-cases, Bool-cases,
}
use pi_musubi_core.HashMap.{get}
use pi_musubi_core.HashMap.Laws.{get-insert_self}
use pi_musubi_core.Orchestration.Model.{
  Uuid, DateTime, OutboxMessage, OutboxAttempt, ClaimedOutboxMessage, DeliveryReceipt,
  ProcessingFailure, transient, permanent, deferred, DeliveryOutcome, OrchestrationError, idle,
  published_event, retry_scheduled, quarantined_event,
}
use pi_musubi_core.Orchestration.Store.{
  InMemoryOrchestrationStore, u32_succ, outbox_attempt_matches,
}
use pi_musubi_core.Orchestration.Store.Outbox.{
  end_attempt, ended, claimed, put_message, published_message, retried_message, quarantined_message,
  mark_outbox_published, schedule_outbox_retry, quarantine_outbox, is_ready, key_lt,
}
use pi_musubi_core.Orchestration.Store.Outbox.Valid.{IsOutboxOf}
use pi_musubi_core.Orchestration.Store.Outbox.Lease.{claim_ready_outbox-Claims}
use pi_musubi_core.Orchestration.Policy.{Chrono, next_retry_at, classify}
use pi_musubi_core.Orchestration.Runtime.Interface.{in_memory}
use pi_musubi_core.Orchestration.Runtime.{
  Config, failed_attempt, published_attempt, reason_for, should_retry, finish_outbox_failure,
  deliver_claimed, deliver_ready_outbox,
}

-- An attempt whose claim is on the message is logged, and its row written.
pub end_attempt_held :
    (k : Uuid) (a : OutboxAttempt) (change : OutboxMessage → OutboxMessage)
    (s : InMemoryOrchestrationStore) (m : OutboxMessage)
    → get k s.outbox_messages ≡ some m
    → outbox_attempt_matches m a ≡ true
    → end_attempt k a change s ≡ (ok tt, ended k a (change m) s)
unfolding end_attempt
end_attempt_held k a change s m g held = rw (g, held, end_attempt)

claimed_matches :
    (relay : String) (until : DateTime) (m : OutboxMessage) (a : OutboxAttempt)
    → a.relay_name ≡ relay
    → a.claimed_until ≡ until
    → outbox_attempt_matches (claimed relay until m) a ≡ true
unfolding outbox_attempt_matches claimed
claimed_matches relay until m a r u = ground (arith, string_eq.decides relay a.relay_name)

module _ (chrono : Chrono) (config : Config chrono) (relay : String) (now : DateTime)
    (publish : ClaimedOutboxMessage → Result ProcessingFailure DeliveryReceipt) where
  open config use {retry_policy, retention_policy, schema_policy, claim_lease_for}

  abbrev pub claim_of : OutboxMessage → ClaimedOutboxMessage
  claim_of m = record {
    message = claimed relay (chrono.add now claim_lease_for) m;
    relay_name = relay;
    claimed_at = now;
    claimed_until = chrono.add now claim_lease_for;
  }

  abbrev pub verdict : OutboxMessage → Result ProcessingFailure (Unit {0})
  verdict m = classify chrono schema_policy m.schema_version m.created_at now

  -- The attempt on a message fails: its schema is not supported, or publishing fails.
  abbrev pub Fails : OutboxMessage → ProcessingFailure → Type 0
  Fails m f = (verdict m ≡ err f) ⊎ ((verdict m ≡ ok tt) × (publish (claim_of m) ≡ err f))

  abbrev pub retry_time : OutboxMessage → DateTime
  retry_time m = next_retry_at chrono retry_policy now m.event_id (u32_succ m.attempt_count)

  -- How an attempt on a message ends: with its outcome, its row and its entry in the log.
  pub data Delivery (m : OutboxMessage)
      : DeliveryOutcome → OutboxMessage → OutboxAttempt → Type 0 where
    publishes :
        (r : DeliveryReceipt)
        → verdict m ≡ ok tt
        → publish (claim_of m) ≡ ok r
        → Delivery m
            (published_event m.event_id)
            (published_message
              (chrono.add now retention_policy.published_outbox_for)
              r
              (published_attempt relay (claim_of m) now r)
              (claim_of m).message)
            (published_attempt relay (claim_of m) now r)
    retries :
        (f : ProcessingFailure)
        → Fails m f
        → (f.class ≡ deferred)
          ⊎ ((f.class ≡ transient) × (u32_succ m.attempt_count < retry_policy.max_attempts))
        → Delivery m
            (retry_scheduled m.event_id (retry_time m))
            (retried_message
              (retry_time m)
              f
              (failed_attempt relay (claim_of m) now f)
              (claim_of m).message)
            (failed_attempt relay (claim_of m) now f)
    quarantines :
        (f : ProcessingFailure)
        → Fails m f
        → (f.class ≡ permanent)
          ⊎ ((f.class ≡ transient) × (retry_policy.max_attempts ≤ u32_succ m.attempt_count))
        → Delivery m
            (quarantined_event m.event_id (reason_for f.class f.quarantine_reason))
            (quarantined_message now
              (chrono.add now retention_policy.quarantined_outbox_for)
              (reason_for f.class f.quarantine_reason)
              f
              (failed_attempt relay (claim_of m) now f)
              (claim_of m).message)
            (failed_attempt relay (claim_of m) now f)

  -- The store after a delivery: one row written, and one attempt logged.
  abbrev pub delivered :
      OutboxMessage
      → OutboxMessage
      → OutboxAttempt
      → InMemoryOrchestrationStore
      → InMemoryOrchestrationStore
  delivered m row attempt s =
      ended m.event_id attempt row (put_message m.event_id (claim_of m).message s)

  pub record Delivers (s : InMemoryOrchestrationStore) (m : OutboxMessage)
      (r : Result OrchestrationError DeliveryOutcome × InMemoryOrchestrationStore) : Type 0 where
    pub outcome : DeliveryOutcome
    pub row : OutboxMessage
    pub attempt : OutboxAttempt
    pub delivery : Delivery m outcome row attempt
    pub result : r ≡ (ok outcome, delivered m row attempt s)

  module _ (s : InMemoryOrchestrationStore) (m : OutboxMessage) where
    abbrev held : InMemoryOrchestrationStore
    held = put_message m.event_id (claim_of m).message s

    stored : get m.event_id held.outbox_messages ≡ some (claim_of m).message
    stored = get-insert_self m.event_id (claim_of m).message s.outbox_messages

    matches :
        (a : OutboxAttempt)
        → a.relay_name ≡ relay
        → a.claimed_until ≡ chrono.add now claim_lease_for
        → outbox_attempt_matches (claim_of m).message a ≡ true
    matches a r u = claimed_matches relay (chrono.add now claim_lease_for) m a r u

    claim_of-fields :
        ((claim_of m).message.event_id ≡ m.event_id)
        × ((claim_of m).message.attempt_count ≡ m.attempt_count)
    unfolding claimed
    claim_of-fields = (refl, refl)

    Fails-Delivers :
        (f : ProcessingFailure)
        → Fails m f
        → Delivers s m (
            finish_outbox_failure chrono in_memory config m.event_id now
              (u32_succ m.attempt_count)
              f
              (failed_attempt relay (claim_of m) now f)
              held)
    unfolding finish_outbox_failure schedule_outbox_retry quarantine_outbox
    Fails-Delivers f bad =
        let a = failed_attempt relay (claim_of m) now f in
        let reason = reason_for f.class f.quarantine_reason in
        let retain = chrono.add now retention_policy.quarantined_outbox_for in
        elim (Bool-cases
          (should_retry f.class (u32_succ m.attempt_count) retry_policy.max_attempts)) [
            | inl again ↦ record {
              outcome = retry_scheduled m.event_id (retry_time m);
              row = retried_message (retry_time m) f a (claim_of m).message;
              attempt = a;
              delivery = retries f bad (ground arith);
              result = rw (
                again,
                end_attempt_held m.event_id a (retried_message (retry_time m) f a) held _ stored
                    (matches a refl refl),
                finish_outbox_failure,
                schedule_outbox_retry,
              );
            }
            | inr never ↦ record {
              outcome = quarantined_event m.event_id reason;
              row = quarantined_message now retain reason f a (claim_of m).message;
              attempt = a;
              delivery = quarantines f bad (ground arith);
              result = rw (
                never,
                end_attempt_held m.event_id a (quarantined_message now retain reason f a) held _
                    stored (matches a refl refl),
                finish_outbox_failure,
                quarantine_outbox,
              );
            }
          ]

    claimed_Delivers :
        Delivers s m (deliver_claimed chrono in_memory config relay now publish (claim_of m) held)
    unfolding deliver_claimed mark_outbox_published claimed
    claimed_Delivers = elim (Result-cases (verdict m)) [
      | inr (f, e) ↦ rw (e, deliver_claimed) (Fails-Delivers f (inl e))
      | inl (_, e) ↦ elim (Result-cases (publish (claim_of m))) [
        | inr (f, p) ↦ rw (e, p, deliver_claimed) (Fails-Delivers f (inr (e, p)))
        | inl (r, p) ↦
            let a = published_attempt relay (claim_of m) now r in
            let retain = chrono.add now retention_policy.published_outbox_for in
            record {
              outcome = published_event m.event_id;
              row = published_message retain r a (claim_of m).message;
              attempt = a;
              delivery = publishes r e p;
              result = rw (
                e,
                p,
                end_attempt_held m.event_id a (published_message retain r a) held _ stored
                    (matches a refl refl),
                deliver_claimed,
                mark_outbox_published,
              );
            }
      ]
    ]

  -- On a store whose outbox is well-formed a delivery never fails. Either no message is ready and
  -- it is idle and changes nothing, or it takes a ready message that no ready message comes
  -- before, and ends one attempt on it as `Delivery` says: published, put back until the retry
  -- time, or quarantined, with the attempt logged and all else kept.
  pub deliver_ready_outbox-Delivers :
      (s : InMemoryOrchestrationStore)
      → IsOutboxOf s
      → ((deliver_ready_outbox chrono in_memory config relay now publish s ≡ (ok idle, s))
          × ((k : Uuid) (n : OutboxMessage)
              → get k s.outbox_messages ≡ some n
              → is_ready now n ≡ false))
        ⊎ ((m : OutboxMessage) × (get m.event_id s.outbox_messages ≡ some m)
            × (is_ready now m ≡ true)
            × ((k : Uuid) (n : OutboxMessage)
                → get k s.outbox_messages ≡ some n
                → is_ready now n ≡ true
                → key_lt n m ≡ false)
            × Delivers s m (deliver_ready_outbox chrono in_memory config relay now publish s))
  unfolding deliver_ready_outbox
  deliver_ready_outbox-Delivers s v =
      elim (claim_ready_outbox-Claims relay now (chrono.add now claim_lease_for) s v) [
        | inl (e, none_ready) ↦ inl (rw (e, deliver_ready_outbox), none_ready)
        | inr (c, t, e, claims) ↦ inr (
          claims.before,
          claims.stored,
          claims.was_ready,
          claims.least,
          rw (e, claims.given, claims.after, deliver_ready_outbox)
              (claimed_Delivers s claims.before),
        )
      ]
