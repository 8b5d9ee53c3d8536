-- ===== src/Orchestration/Store/Outbox/Lease.antt =====
-- apps/backend/crates/orchestration/src/store.rs: a lease keeps other relays away, and a relay
-- that has lost its lease changes nothing.
use pi_musubi_core.Prelude.{
  ◌<◌, String, ◌≡◌, refl, subst, ◌≢◌, ◌⊎◌, inl, inr, true, false, none, some, arith, nat_eq,
  string_eq, option_eq, ok, err, Option-cases,
}
use pi_musubi_core.HashMap.{get}
use pi_musubi_core.Orchestration.Model.{
  Uuid, DateTime, OutboxMessage, OutboxAttempt, ClaimedOutboxMessage, DeliveryReceipt,
  ProcessingFailure, QuarantineReason, stale_outbox_claim, primary_writer,
}
use pi_musubi_core.HashMap.Laws.{get-insert_self}
use pi_musubi_core.Orchestration.Model.Exec.{Exec}
use pi_musubi_core.Orchestration.Store.{InMemoryOrchestrationStore}
use pi_musubi_core.Orchestration.Store.Outbox.{
  claim_ready_outbox, mark_outbox_published, schedule_outbox_retry, quarantine_outbox, candidate,
  claimed, end_attempt, is_ready, key_lt, put_message,
}
use pi_musubi_core.Orchestration.Store.Outbox.Valid.{IsOutboxOf}
use pi_musubi_core.Orchestration.Store.Outbox.Claim.{
  candidate_ready, candidate_least, candidate-none,
}

-- What a claim by the primary writer does.
pub record Claims (relay : String) (now until : DateTime) (s t : InMemoryOrchestrationStore)
    (c : ClaimedOutboxMessage) : Type 0 where
  pub before : OutboxMessage
  pub stored : get before.event_id s.outbox_messages ≡ some before
  pub was_ready : is_ready now before ≡ true
  pub least :
      (k : Uuid) (n : OutboxMessage)
      → get k s.outbox_messages ≡ some n
      → is_ready now n ≡ true
      → key_lt n before ≡ false
  pub given : c ≡ record {
    message = claimed relay until before;
    relay_name = relay;
    claimed_at = now;
    claimed_until = until;
  }
  pub after : t ≡ put_message before.event_id (claimed relay until before) s

-- A claim by the primary writer never fails: it takes the least ready message, or finds none ready
-- and changes nothing.
pub claim_ready_outbox-Claims :
    (relay : String) (now until : DateTime) (s : InMemoryOrchestrationStore)
    → IsOutboxOf s
    → ((claim_ready_outbox primary_writer relay now until s ≡ (ok none, s))
        × ((k : Uuid) (n : OutboxMessage)
            → get k s.outbox_messages ≡ some n
            → is_ready now n ≡ false))
      ⊎ ((c : ClaimedOutboxMessage) × (t : InMemoryOrchestrationStore) × (claim_ready_outbox
              primary_writer relay now until s
            ≡ (ok (some c), t))
          × Claims relay now until s t c)
unfolding claim_ready_outbox
claim_ready_outbox-Claims relay now until s v = elim (Option-cases (candidate now s)) [
  | inl e ↦ inl (rw (e, claim_ready_outbox), candidate-none now s v e)
  | inr (m, e) ↦
      let (g, r) = candidate_ready now s v m e in
      inr (
        _,
        _,
        rw (e, g, claim_ready_outbox),
        record {
          before = m;
          stored = g;
          was_ready = r;
          least = candidate_least now s v m e;
          given = refl;
          after = refl;
        },
      )
]

claimed-event_id :
    (relay : String) (until : DateTime) (m : OutboxMessage)
    → (claimed relay until m).event_id ≡ m.event_id
unfolding claimed
claimed-event_id relay until m = refl

ready_past_lease :
    (now : DateTime) (n m : OutboxMessage) (expiry : DateTime)
    → n ≡ m
    → m.claimed_until ≡ some expiry
    → now < expiry
    → is_ready now n ≡ true
    → ⊥
unfolding is_ready
ready_past_lease now n m expiry e leased running r = ground arith

-- On a store whose outbox is well-formed, no claim takes a message while the lease on it runs.
pub lease_excludes :
    (relay : String) (now until : DateTime) (s t : InMemoryOrchestrationStore)
    (c : ClaimedOutboxMessage) (k : Uuid) (m : OutboxMessage) (expiry : DateTime)
    → IsOutboxOf s
    → get k s.outbox_messages ≡ some m
    → m.claimed_until ≡ some expiry
    → now < expiry
    → claim_ready_outbox primary_writer relay now until s ≡ (ok (some c), t)
    → c.message.event_id ≢ k
lease_excludes relay now until s t c k m expiry v g leased running e same =
    elim (claim_ready_outbox-Claims relay now until s v) [
      | inl (idle, _) ↦ absurd (cc)
      | inr (c', t', e', claims) ↦
          let open_claim : c ≡ c' = cc in
          let here : claims.before.event_id ≡ k =
            ground (arith, claimed-event_id relay until claims.before, claims.given) in
          let stored : get k s.outbox_messages ≡ some claims.before =
            subst (λ j. get j s.outbox_messages ≡ some claims.before) here claims.stored in
          ready_past_lease now claims.before m expiry (ground arith) leased running claims.was_ready
    ]

stale_end :
    (k : Uuid) (attempt : OutboxAttempt) (change : OutboxMessage → OutboxMessage)
    (s : InMemoryOrchestrationStore) (m : OutboxMessage) (relay : String) (until : DateTime)
    → get k s.outbox_messages ≡ some (claimed relay until m)
    → (attempt.relay_name ≢ relay) ⊎ (attempt.claimed_until ≢ until)
    → end_attempt k attempt change s ≡ (err (stale_outbox_claim k), s)
unfolding end_attempt claimed
stale_end k attempt change s m relay until g other =
    ground (arith, string_eq.decides relay attempt.relay_name)

-- What an operation answers to a report under a claim that is lost: an error, and the same store.
abbrev pub Refuses :
    Uuid → InMemoryOrchestrationStore → Exec InMemoryOrchestrationStore (Unit {0}) → Type 0
Refuses k t operation = operation t ≡ (err (stale_outbox_claim k), t)

-- Once a relay has claimed a message of a store whose outbox is well-formed, every report on that
-- message for an attempt of another relay, or under another claim, fails as stale and changes
-- nothing: that it is published, that it is to be retried, and that it is quarantined.
pub stale_attempt :
    (relay : String) (now until : DateTime) (s t : InMemoryOrchestrationStore)
    (c : ClaimedOutboxMessage)
    → IsOutboxOf s
    → claim_ready_outbox primary_writer relay now until s ≡ (ok (some c), t)
    → (attempt : OutboxAttempt) → (attempt.relay_name ≢ relay) ⊎ (attempt.claimed_until ≢ until)
    → ((retain_until : DateTime) (receipt : DeliveryReceipt)
        → Refuses c.message.event_id t
            (mark_outbox_published c.message.event_id retain_until receipt attempt))
      × ((retry_at : DateTime) (failure : ProcessingFailure)
          → Refuses c.message.event_id t
              (schedule_outbox_retry c.message.event_id retry_at failure attempt))
      × ((at retain_until : DateTime) (reason : QuarantineReason) (failure : ProcessingFailure)
          → Refuses c.message.event_id t
              (quarantine_outbox c.message.event_id at retain_until reason failure attempt))
unfolding mark_outbox_published schedule_outbox_retry quarantine_outbox
stale_attempt relay now until s t c v e attempt other =
    elim (claim_ready_outbox-Claims relay now until s v) [
      | inl (idle, _) ↦ absurd (cc)
      | inr (c', t', e', claims) ↦
          let same : c ≡ c' = cc in
          let k : c.message.event_id ≡ claims.before.event_id =
            ground (arith, claimed-event_id relay until claims.before, claims.given) in
          let after : t ≡ put_message claims.before.event_id (claimed relay until claims.before) s =
            cc in
          let stored : get c.message.event_id t.outbox_messages
              ≡ some (claimed relay until claims.before) =
            rw (after, k)
              (get-insert_self claims.before.event_id (claimed relay until claims.before)
                s.outbox_messages) in
          let stale = λ (change : OutboxMessage → OutboxMessage).
            stale_end c.message.event_id attempt change t claims.before relay until stored other in
          ((λ retain r. stale _), (λ at f. stale _), (λ at retain q f. stale _))
    ]
