-- ===== src/Orchestration/Runtime/Rounds.antt =====
-- apps/backend/crates/orchestration/src/runtime.rs: rounds of deliveries, each at its instant.
use pi_musubi_core.Prelude.{
  ℕ, ◌+◌, ◌^◌, ◌≤◌, ◌<◌, String, ◌≡◌, refl, sym, subst, ◌⊎◌, inl, inr, true, false, none, some,
  List, [], ◌∷◌, Result, err, arith, nat_eq, length, All, All-mono,
}
use pi_musubi_core.Prelude.Int.{leb_ℤ}
use pi_musubi_core.HashMap.{get}
use pi_musubi_core.Orchestration.Model.{
  Uuid, DateTime, OutboxMessage, OutboxAttempt, ClaimedOutboxMessage, DeliveryReceipt,
  ProcessingFailure, DeliveryOutcome, pending, quarantined, transient,
}
use pi_musubi_core.Orchestration.Store.{InMemoryOrchestrationStore}
use pi_musubi_core.Orchestration.Store.Outbox.{
  is_ready, claimed, retried_message, quarantined_message,
}
use pi_musubi_core.Orchestration.Store.Outbox.Valid.{IsOutboxOf}
use pi_musubi_core.Orchestration.Policy.{Chrono, next_retry_at, classify}
use pi_musubi_core.Orchestration.Runtime.{Config}
use pi_musubi_core.Orchestration.Runtime.Deliver.{
  Delivery, Fails, publishes, retries, quarantines, retry_time, claim_of,
}
use pi_musubi_core.Orchestration.Runtime.Drain.{deliveries, ready_count, Waits, deliveries-Drained}

module _ (chrono : Chrono) (config : Config chrono) (relay : String)
    (publish : ClaimedOutboxMessage → Result ProcessingFailure DeliveryReceipt) where
  open config use {retry_policy, schema_policy}

  -- As many deliveries at an instant as messages are ready.
  abbrev round : DateTime → InMemoryOrchestrationStore → InMemoryOrchestrationStore
  round t s =
      deliveries chrono config relay t publish (ready_count chrono config relay t publish s) s

  unfoldable pub rounds : List DateTime → InMemoryOrchestrationStore → InMemoryOrchestrationStore
  rounds [] s = s
  rounds (t ∷ ts) s = rounds ts (round t s)

  -- Each round comes after the retries of the rounds before it, which wait.
  abbrev pub Spaced : List DateTime → Type 0
  Spaced [] = Unit
  Spaced (t ∷ ts) =
      Waits chrono config relay t publish
      × All (λ u. (id : Uuid) (n : ℕ) → next_retry_at chrono retry_policy t id n ≤ u) ts
      × Spaced ts

  -- Each attempt to publish the message fails in a way that may pass.
  abbrev pub KeepsFailing : Uuid → Type 0
  KeepsFailing k =
      (c : ClaimedOutboxMessage)
      → c.message.event_id ≡ k
      → (f : ProcessingFailure) × (publish c ≡ err f) × (f.class ≡ transient)

  -- A message that waits for an attempt, in a schema that is supported, within its attempts.
  pub record IsWaiting (k : Uuid) (m : OutboxMessage) : Type 0 where
    pub keyed : m.event_id ≡ k
    pub status : m.delivery_status ≡ pending
    pub unclaimed : m.claimed_until ≡ none
    pub supported : leb_ℤ m.schema_version schema_policy.max_supported_schema_version ≡ true
    pub attempts_left : m.attempt_count < retry_policy.max_attempts

  waiting_ready :
      (t : DateTime) (k : Uuid) (m : OutboxMessage)
      → IsWaiting k m
      → m.available_at ≤ t
      → is_ready t m ≡ true
  unfolding is_ready
  waiting_ready t k m w h = let a = w.status in let b = w.unclaimed in ground arith

  quarantined-not_ready :
      (t : DateTime) (m : OutboxMessage) → m.delivery_status ≡ quarantined → is_ready t m ≡ false
  unfolding is_ready
  quarantined-not_ready t m h = ground arith

  -- The failure of an attempt on such a message may pass.
  Fails-transient :
      (t : DateTime) (k : Uuid) (m : OutboxMessage) (f : ProcessingFailure)
      → IsWaiting k m
      → KeepsFailing k
      → Fails chrono config relay t publish m f
      → f.class ≡ transient
  unfolding classify claimed
  Fails-transient t k m f w fails (inl refused) = absurd (ground (arith, w.supported))
  Fails-transient t k m f w fails (inr (_, failed)) =
      let (g, published, class) = fails (claim_of chrono config relay t publish m) w.keyed in
      ground arith

  record Again (t : DateTime) (k : Uuid) (m row : OutboxMessage) : Type 0 where
    waiting : IsWaiting k row
    counted : row.attempt_count ≡ m.attempt_count + 1
    later : row.available_at ≡ retry_time chrono config relay t publish m

  -- An attempt on such a message leaves it quarantined, or waiting with one attempt more.
  Delivery-ends :
      (t : DateTime) (k : Uuid) (m : OutboxMessage) (o : DeliveryOutcome) (row : OutboxMessage)
      (a : OutboxAttempt)
      → Delivery chrono config relay t publish m o row a
      → retry_policy.max_attempts < 2 ^ 32
      → IsWaiting k m
      → KeepsFailing k
      → (row.delivery_status ≡ quarantined) ⊎ Again t k m row
  unfolding claimed retried_message quarantined_message
  Delivery-ends t k m o row a (publishes r v p) small w fails =
      let (f, published, class) = fails (claim_of chrono config relay t publish m) w.keyed in
      absurd (ground arith)
  Delivery-ends t k m o row a (retries f bad again) small w fails =
      let class = Fails-transient t k m f w fails bad in
      let left = w.attempts_left in
      inr (record {
        waiting = record {
          keyed = w.keyed;
          status = refl;
          unclaimed = refl;
          supported = w.supported;
          attempts_left = ground arith;
        };
        counted = omega arith;
        later = refl;
      })
  Delivery-ends t k m o row a (quarantines f bad never) small w fails = inl refl

  -- A quarantined message stays as it is.
  rounds-quarantined :
      (ts : List DateTime) (s : InMemoryOrchestrationStore) (k : Uuid) (m : OutboxMessage)
      → Spaced ts
      → IsOutboxOf s
      → get k s.outbox_messages ≡ some m
      → m.delivery_status ≡ quarantined
      → get k (rounds ts s).outbox_messages ≡ some m
  unfolding rounds
  rounds-quarantined [] s k m spaced v g q = g
  rounds-quarantined (t ∷ ts) s k m spaced v g q =
      let drained = deliveries-Drained chrono config relay t publish spaced.0 s v in
      rounds-quarantined ts (round t s) k m spaced.2 drained.valid
        (drained.untouched k m g (quarantined-not_ready t m q)) q

  abbrev Ends : Uuid → InMemoryOrchestrationStore → Type 0
  Ends k s =
      (row : OutboxMessage) × (get k s.outbox_messages ≡ some row)
      × (row.delivery_status ≡ quarantined)

  -- A message that waits for an attempt, in a supported schema and with attempts left, and whose
  -- every publication fails in a way that may pass, ends quarantined: rounds of deliveries at
  -- instants from which retries wait, none before the message is available, and each after the
  -- retries of the rounds before it, are enough if they are as many as the message has attempts
  -- left, whatever else is in the well-formed store; `max_attempts` is a `u32`.
  pub failing_message_ends :
      (ts : List DateTime) (s : InMemoryOrchestrationStore) (k : Uuid) (m : OutboxMessage)
      → IsOutboxOf s
      → Spaced ts
      → get k s.outbox_messages ≡ some m
      → IsWaiting k m
      → All (λ t. m.available_at ≤ t) ts
      → KeepsFailing k
      → retry_policy.max_attempts < 2 ^ 32
      → retry_policy.max_attempts ≤ m.attempt_count + length ts
      → (row : OutboxMessage) × (get k (rounds ts s).outbox_messages ≡ some row)
        × (row.delivery_status ≡ quarantined)
  unfolding rounds
  failing_message_ends [] s k m v spaced g w available fails small enough =
      absurd (omega (arith, w.attempts_left))
  failing_message_ends (t ∷ ts) s k m v spaced g w available fails small enough =
      let drained = deliveries-Drained chrono config relay t publish spaced.0 s v in
      let (o, row, a, ends, stored) = drained.attempted k m g (waiting_ready t k m w available.0) in
      elim (Delivery-ends t k m o row a ends small w fails) [
        | inl q ↦ (row, rounds-quarantined ts (round t s) k row spaced.2 drained.valid stored q, q)
        | inr again ↦
            failing_message_ends ts (round t s) k row drained.valid spaced.2 stored again.waiting
              (All-mono (λ u. (id : Uuid) (n : ℕ) → next_retry_at chrono retry_policy t id n ≤ u) _
                ts (λ u h. subst (λ x. x ≤ u) (sym again.later) (h m.event_id _)) spaced.1)
              fails small (omega (arith, again.counted))
      ]
