-- ===== src/Orchestration/Store/Outbox/Cases.antt =====
-- apps/backend/crates/orchestration/src/store.rs: how each operation of the outbox can end, as a
-- rule for what holds of the store after it.
use pi_musubi_core.Prelude.{
  String, ◌≡◌, inl, inr, true, false, none, some, arith, nat_eq, Option-cases, Bool-cases,
}
use pi_musubi_core.HashMap.{HashMap, get, contains_key}
use pi_musubi_core.Orchestration.Model.{
  Uuid, DateTime, WriterReadSource, AuthoritativeChange, NewOutboxMessage, OutboxMessage,
  OutboxAttempt,
}
use pi_musubi_core.Orchestration.Store.{InMemoryOrchestrationStore, outbox_attempt_matches}
use pi_musubi_core.Orchestration.Store.Outbox.{
  commit_authoritative_write, committed, is_key_used, claim_ready_outbox, candidate, claimed,
  end_attempt, ended, put_message,
}

absent_of_contains :
    (k : Uuid) (m : HashMap Uuid OutboxMessage) → contains_key k m ≡ false → get k m ≡ none
unfolding contains_key
absent_of_contains k m h = ground arith

module _ (P : InMemoryOrchestrationStore → Type 0) (s : InMemoryOrchestrationStore) where
  pub commit_cases :
      (source : WriterReadSource) (change : AuthoritativeChange) (message : NewOutboxMessage)
      → P s
      → (get message.event_id s.outbox_messages ≡ none
          → is_key_used message.idempotency_key s ≡ false
          → P (committed change message s))
      → P (commit_authoritative_write source change message s).1
  unfolding commit_authoritative_write
  commit_cases WriterReadSource.read_replica change message refused accepted = refused
  commit_cases WriterReadSource.primary_writer change message refused accepted =
      elim (Bool-cases (contains_key message.event_id s.outbox_messages)) [
        | inl known ↦ rw (known, commit_authoritative_write) refused
        | inr new ↦ elim (Bool-cases (is_key_used message.idempotency_key s)) [
          | inl used ↦ rw (new, used, commit_authoritative_write) refused
          | inr fresh ↦
              rw (new, fresh, commit_authoritative_write)
                (accepted (absent_of_contains message.event_id s.outbox_messages new) fresh)
        ]
      ]

  pub claim_cases :
      (source : WriterReadSource) (relay : String) (now until : DateTime)
      → P s
      → ((found m : OutboxMessage)
          → candidate now s ≡ some found
          → get found.event_id s.outbox_messages ≡ some m
          → P (put_message found.event_id (claimed relay until m) s))
      → P (claim_ready_outbox source relay now until s).1
  unfolding claim_ready_outbox
  claim_cases WriterReadSource.read_replica relay now until idle found = idle
  claim_cases WriterReadSource.primary_writer relay now until idle found =
      elim (Option-cases (candidate now s)) [
        | inl nothing ↦ rw (nothing, claim_ready_outbox) idle
        | inr (c, e) ↦ elim (Option-cases (get c.event_id s.outbox_messages)) [
          | inl missing ↦ rw (e, missing, claim_ready_outbox) idle
          | inr (m, g) ↦ rw (e, g, claim_ready_outbox) (found c m e g)
        ]
      ]

  pub end_cases :
      (k : Uuid) (attempt : OutboxAttempt) (change : OutboxMessage → OutboxMessage)
      → P s
      → ((m : OutboxMessage)
          → get k s.outbox_messages ≡ some m
          → outbox_attempt_matches m attempt ≡ true
          → P (ended k attempt (change m) s))
      → P (end_attempt k attempt change s).1
  unfolding end_attempt
  end_cases k attempt change refused accepted = elim (Option-cases (get k s.outbox_messages)) [
    | inl missing ↦ rw (missing, end_attempt) refused
    | inr (m, g) ↦ elim (Bool-cases (outbox_attempt_matches m attempt)) [
      | inl held ↦ rw (g, held, end_attempt) (accepted m g held)
      | inr stale ↦ rw (g, stale, end_attempt) refused
    ]
  ]
