-- ===== src/Orchestration/Runtime/Drain.antt =====
-- apps/backend/crates/orchestration/src/runtime.rs: deliveries one after the other at one instant.
use pi_musubi_core.Prelude.{
  ℕ, zero, suc, ◌<◌, String, ◌≡◌, refl, sym, ap, subst, inl, inr, true, false, some, Result, ok,
  arith, ◌==◌, nat_eq, Bool-cases, if◌then◌else◌,
}
use pi_musubi_core.HashMap.{get}
use pi_musubi_core.HashMap.Laws.{get-insert}
use pi_musubi_core.HashMap.Count.{count, insert-insert, count-insert, count_pos, count_zero}
use pi_musubi_core.Orchestration.Model.{
  Uuid, DateTime, OutboxMessage, OutboxAttempt, ClaimedOutboxMessage, DeliveryReceipt,
  ProcessingFailure, DeliveryOutcome, idle,
}
use pi_musubi_core.Orchestration.Store.{InMemoryOrchestrationStore}
use pi_musubi_core.Orchestration.Store.Outbox.{
  is_ready, claimed, published_message, retried_message, quarantined_message,
}
use pi_musubi_core.Orchestration.Store.Outbox.Rows.{
  Keeps, IsMessage, SameIdentity, claimed-Keeps, published-Keeps, retried-Keeps, quarantined-Keeps,
}
use pi_musubi_core.Orchestration.Store.Outbox.Valid.{IsOutboxOf, update-IsOutbox}
use pi_musubi_core.Orchestration.Policy.{Chrono}
use pi_musubi_core.Orchestration.Runtime.Interface.{in_memory}
use pi_musubi_core.Orchestration.Runtime.{Config, deliver_ready_outbox}
use pi_musubi_core.Orchestration.Runtime.Deliver.{
  Delivery, claim_of, publishes, retries, quarantines, delivered, retry_time,
  deliver_ready_outbox-Delivers,
}

module _ (chrono : Chrono) (config : Config chrono) (relay : String) (now : DateTime)
    (publish : ClaimedOutboxMessage → Result ProcessingFailure DeliveryReceipt) where
  abbrev deliver : InMemoryOrchestrationStore → InMemoryOrchestrationStore
  deliver s = (deliver_ready_outbox chrono in_memory config relay now publish s).1

  -- The store after a number of deliveries.
  unfoldable pub deliveries : ℕ → InMemoryOrchestrationStore → InMemoryOrchestrationStore
  deliveries zero s = s
  deliveries (suc n) s = deliveries n (deliver s)

  abbrev pub ready_count : InMemoryOrchestrationStore → ℕ
  ready_count s = count (is_ready now) s.outbox_messages

  -- A retry is put off past the present instant.
  abbrev pub Waits : Type 0
  Waits = (m : OutboxMessage) → now < retry_time chrono config relay now publish m

  abbrev Ends : OutboxMessage → DeliveryOutcome → OutboxMessage → OutboxAttempt → Type 0
  Ends = Delivery chrono config relay now publish

  -- What a delivery leaves of a message waits, or is finished.
  Delivery-not_ready :
      Waits
      → (m : OutboxMessage) (o : DeliveryOutcome) (row : OutboxMessage) (a : OutboxAttempt)
      → Ends m o row a
      → is_ready now row ≡ false
  unfolding is_ready published_message retried_message quarantined_message
  Delivery-not_ready waits m o row a (publishes r v p) = refl
  Delivery-not_ready waits m o row a (retries f bad again) = ground (arith, waits m)
  Delivery-not_ready waits m o row a (quarantines f bad never) = refl

  record Kept (m row : OutboxMessage) : Type 0 where
    identity : SameIdentity row m
    message : IsMessage m → IsMessage row

  then_Kept :
      (until : DateTime) (change : OutboxMessage → OutboxMessage) (m : OutboxMessage)
      → Keeps change
      → Kept m (change (claimed relay until m))
  unfolding claimed
  then_Kept until change m keeps =
      let c = claimed-Keeps relay until in
      let same = keeps.identity (claimed relay until m) in
      let before = c.identity m in
      record {
        identity = ground arith;
        message = λ v. keeps.message (claimed relay until m) (c.message m v);
      }

  Delivery-Kept :
      (m : OutboxMessage) (o : DeliveryOutcome) (row : OutboxMessage) (a : OutboxAttempt)
      → Ends m o row a
      → Kept m row
  Delivery-Kept m o row a (publishes r v p) = then_Kept _ _ m (published-Keeps _ r _)
  Delivery-Kept m o row a (retries f bad again) = then_Kept _ _ m (retried-Keeps _ f _)
  Delivery-Kept m o row a (quarantines f bad never) =
      then_Kept _ _ m (quarantined-Keeps now _ _ f _)

  -- A delivery that takes the ready message `m` writes over it, and one message fewer is ready.
  record Takes (s t : InMemoryOrchestrationStore) (m : OutboxMessage) : Type 0 where
    outcome : DeliveryOutcome
    row : OutboxMessage
    attempt : OutboxAttempt
    ends : Ends m outcome row attempt
    looked :
        (k : Uuid)
        → get k t.outbox_messages ≡ (if m.event_id == k then some row else get k s.outbox_messages)
    fewer : suc (ready_count t) ≡ ready_count s
    valid : IsOutboxOf t

  delivered-Takes :
      Waits
      → (s : InMemoryOrchestrationStore) (m : OutboxMessage) → IsOutboxOf s
      → get m.event_id s.outbox_messages ≡ some m
      → is_ready now m ≡ true
      → (o : DeliveryOutcome) (row : OutboxMessage) (a : OutboxAttempt) → Ends m o row a
      → Takes s (delivered chrono config relay now publish m row a s) m
  delivered-Takes waits s m v g ready o row a ends =
      let k = m.event_id in
      let kept = Delivery-Kept m o row a ends in
      let not_ready = Delivery-not_ready waits m o row a ends in
      let held = (claim_of chrono config relay now publish m).message in
      rw (insert-insert k held row s.outbox_messages) record {
        outcome = o;
        row = row;
        attempt = a;
        ends = ends;
        looked = λ j. get-insert k j row s.outbox_messages;
        fewer = count-insert (is_ready now) k m row s.outbox_messages g ready not_ready;
        valid = update-IsOutbox v k m row g kept.identity (kept.message (v.row k m g).message);
      }

  pub record Drained (s t : InMemoryOrchestrationStore) : Type 0 where
    pub attempted :
        (k : Uuid) (m : OutboxMessage)
        → get k s.outbox_messages ≡ some m
        → is_ready now m ≡ true
        → (o : DeliveryOutcome) × (row : OutboxMessage) × (a : OutboxAttempt) × Ends m o row a
          × (get k t.outbox_messages ≡ some row)
    pub untouched :
        (k : Uuid) (m : OutboxMessage)
        → get k s.outbox_messages ≡ some m
        → is_ready now m ≡ false
        → get k t.outbox_messages ≡ some m
    pub valid : IsOutboxOf t
    pub then_idle : deliver_ready_outbox chrono in_memory config relay now publish t ≡ (ok idle, t)

  later_Drained :
      Waits
      → (s t u : InMemoryOrchestrationStore) (m : OutboxMessage)
      → get m.event_id s.outbox_messages ≡ some m
      → is_ready now m ≡ true
      → Takes s t m
      → Drained t u
      → Drained s u
  later_Drained waits s t u m g ready took rest = record {
    attempted = λ k n h r. elim (Bool-cases (m.event_id == k)) [
      | inl here ↦ (
        took.outcome,
        took.row,
        took.attempt,
        subst (λ x. Ends x took.outcome took.row took.attempt) {x = m} {y = n} (ground arith)
            took.ends,
        rest.untouched k took.row (ground (arith, took.looked k))
            (Delivery-not_ready waits m took.outcome took.row took.attempt took.ends),
      )
      | inr there ↦ rest.attempted k n (ground (arith, took.looked k)) r
    ];
    untouched = λ k n h r. rest.untouched k n (ground (arith, took.looked k)) r;
    valid = rest.valid;
    then_idle = rest.then_idle;
  }

  deliveries_of :
      Waits
      → (n : ℕ) (s : InMemoryOrchestrationStore) → IsOutboxOf s
      → ready_count s ≡ n
      → Drained s (deliveries n s)
  unfolding deliveries
  deliveries_of waits zero s v c =
      elim (deliver_ready_outbox-Delivers chrono config relay now publish s v) [
        | inl (idles, none_ready) ↦ record {
          attempted = λ k m g r. absurd (ground (arith, none_ready k m g));
          untouched = λ k m g r. g;
          valid = v;
          then_idle = idles;
        }
        | inr (m, g, r, least, d) ↦
            absurd (omega (arith, count_pos (is_ready now) m.event_id m s.outbox_messages g r))
      ]
  deliveries_of waits (suc n) s v c =
      elim (deliver_ready_outbox-Delivers chrono config relay now publish s v) [
        | inl (idles, none_ready) ↦
            absurd
              (omega (arith, count_zero (is_ready now) s.outbox_messages v.distinct none_ready))
        | inr (m, g, r, least, d) ↦
            let took =
              subst (λ t. Takes s t m) (sym (ap (λ x. x.1) d.result))
                (delivered-Takes waits s m v g r d.outcome d.row d.attempt d.delivery) in
            later_Drained waits s (deliver s) (deliveries n (deliver s)) m g r took
              (deliveries_of waits n (deliver s) took.valid (omega (arith, took.fewer)))
      ]

  -- On a store whose outbox is well-formed, with retries that are put off past the instant, as many
  -- deliveries at that instant as messages are ready try each of these once, whatever becomes of
  -- the attempts, and leave every other message as it is; the outbox is then well-formed, and the
  -- next delivery is idle.
  pub deliveries-Drained :
      Waits
      → (s : InMemoryOrchestrationStore) → IsOutboxOf s
      → Drained s (deliveries (ready_count s) s)
  deliveries-Drained waits s v = deliveries_of waits (ready_count s) s v refl
