-- ===== src/Orchestration/Store/Outbox/Valid.antt =====
-- apps/backend/crates/orchestration/src/store.rs: the invariant of the outbox, and that each
-- operation of the outbox keeps it.
use pi_musubi_core.Prelude.{
  ℕ, ◌+◌, ◌^◌, ◌≤◌, ◌<◌, String, ◌≡◌, refl, false, none, some, arith, ◌==◌, nat_eq,
}
use pi_musubi_core.HashMap.{HashMap, get, insert, remove, Distinct}
use pi_musubi_core.HashMap.Laws.{
  get-insert, Distinct-insert, get-remove, Distinct-remove, any-values-false,
}
use pi_musubi_core.Orchestration.Model.{
  Uuid, DateTime, WriterReadSource, AuthoritativeChange, NewOutboxMessage, OutboxMessage,
  OutboxAttempt,
}
use pi_musubi_core.Orchestration.Store.{InMemoryOrchestrationStore, i64_succ}
use pi_musubi_core.Orchestration.Store.Outbox.{
  commit_authoritative_write, committed, is_key_used, stored_message, claim_ready_outbox, claimed,
  end_attempt,
}
use pi_musubi_core.Orchestration.Store.Outbox.Cases.{commit_cases, claim_cases, end_cases}
use pi_musubi_core.Orchestration.Store.Outbox.Rows.{
  IsMessage, SameIdentity, Keeps, stored_message-IsMessage, claimed-Keeps,
}

pub record IsRow (next : ℕ) (k : Uuid) (m : OutboxMessage) : Type 0 where
  pub keyed : m.event_id ≡ k
  pub numbered : 0 < m.causal_order
  pub counted : m.causal_order ≤ next
  pub message : IsMessage m

-- The map of messages, with the counter of causal orders.
pub record IsOutbox (messages : HashMap Uuid OutboxMessage) (next : ℕ) : Type 0 where
  pub distinct : Distinct messages
  pub row : (k : Uuid) (m : OutboxMessage) → get k messages ≡ some m → IsRow next k m
  pub one_key :
      (j k : Uuid) (m n : OutboxMessage)
      → get j messages ≡ some m
      → get k messages ≡ some n
      → m.idempotency_key ≡ n.idempotency_key
      → j ≡ k
  pub one_order :
      (j k : Uuid) (m n : OutboxMessage)
      → get j messages ≡ some m
      → get k messages ≡ some n
      → m.causal_order ≡ n.causal_order
      → j ≡ k

module _ {next : ℕ} {messages : HashMap Uuid OutboxMessage} (v : IsOutbox messages next) where
  pub update-IsOutbox :
      (k : Uuid) (m n : OutboxMessage)
      → get k messages ≡ some m
      → SameIdentity n m
      → IsMessage n
      → IsOutbox (insert k n messages) next
  update-IsOutbox k m n g same valid = record {
    distinct = Distinct-insert k n messages v.distinct;
    row = λ j x h. ground (arith, get-insert k j n messages, v.row k m g, v.row j x);
    one_key = λ i j x y gi gj e. ground (
      arith,
      get-insert k i n messages,
      get-insert k j n messages,
      v.one_key i j x y,
      v.one_key i k x m,
      v.one_key k j m y,
    );
    one_order = λ i j x y gi gj e. ground (
      arith,
      get-insert k i n messages,
      get-insert k j n messages,
      v.one_order i j x y,
      v.one_order i k x m,
      v.one_order k j m y,
    );
  }

  pub remove-IsOutbox : (k : Uuid) → IsOutbox (remove k messages) next
  remove-IsOutbox k = record {
    distinct = Distinct-remove k messages v.distinct;
    row = λ j x h. ground (arith, get-remove k j messages v.distinct, v.row j x);
    one_key = λ i j x y gi gj e. ground (
      arith,
      get-remove k i messages v.distinct,
      get-remove k j messages v.distinct,
      v.one_key i j x y,
    );
    one_order = λ i j x y gi gj e. ground (
      arith,
      get-remove k i messages v.distinct,
      get-remove k j messages v.distinct,
      v.one_order i j x y,
    );
  }

  pub add-IsOutbox :
      (n : OutboxMessage)
      → get n.event_id messages ≡ none
      → ((k : Uuid) (m : OutboxMessage)
          → get k messages ≡ some m
          → (m.idempotency_key == n.idempotency_key) ≡ false)
      → n.causal_order ≡ next + 1
      → IsMessage n
      → IsOutbox (insert n.event_id n messages) (next + 1)
  add-IsOutbox n absent fresh order valid = record {
    distinct = Distinct-insert n.event_id n messages v.distinct;
    row = λ j x h. ground (arith, get-insert n.event_id j n messages, v.row j x);
    one_key = λ i j x y gi gj e. ground (
      arith,
      get-insert n.event_id i n messages,
      get-insert n.event_id j n messages,
      v.one_key i j x y,
      fresh i x,
      fresh j y,
    );
    one_order = λ i j x y gi gj e. ground (
      arith,
      get-insert n.event_id i n messages,
      get-insert n.event_id j n messages,
      v.one_order i j x y,
      v.row i x,
      v.row j y,
    );
  }

abbrev pub IsOutboxOf : InMemoryOrchestrationStore → Type 0
IsOutboxOf s = IsOutbox s.outbox_messages s.next_causal_order

fresh_key :
    (s : InMemoryOrchestrationStore) (key k : Uuid) (m : OutboxMessage)
    → is_key_used key s ≡ false
    → get k s.outbox_messages ≡ some m
    → (m.idempotency_key == key) ≡ false
unfolding is_key_used
fresh_key s key k m h g =
    any-values-false (λ existing. existing.idempotency_key == key) k s.outbox_messages h g

-- A commit, accepted or refused, while the counter is below the bound of an `i64`.
pub commit_authoritative_write-IsOutbox :
    (source : WriterReadSource) (change : AuthoritativeChange) (message : NewOutboxMessage)
    (s : InMemoryOrchestrationStore)
    → IsOutboxOf s
    → s.next_causal_order + 1 < 2 ^ 63
    → IsOutboxOf (commit_authoritative_write source change message s).1
commit_authoritative_write-IsOutbox source change message s v room =
    commit_cases IsOutboxOf s source change message v λ absent fresh.
      unfold committed stored_message in
      let e : i64_succ s.next_causal_order ≡ s.next_causal_order + 1 = omega arith in
      rw e (
        add-IsOutbox v (stored_message message (s.next_causal_order + 1)) absent
          (λ k m. fresh_key s message.idempotency_key k m fresh) refl
          (stored_message-IsMessage message (s.next_causal_order + 1)))

pub claim_ready_outbox-IsOutbox :
    (source : WriterReadSource) (relay : String) (now until : DateTime)
    (s : InMemoryOrchestrationStore)
    → IsOutboxOf s
    → IsOutboxOf (claim_ready_outbox source relay now until s).1
claim_ready_outbox-IsOutbox source relay now until s v =
    let keeps = claimed-Keeps relay until in
    claim_cases IsOutboxOf s source relay now until v λ found m e g.
      update-IsOutbox v found.event_id m (claimed relay until m) g (keeps.identity m)
        (keeps.message m (v.row found.event_id m g).message)

-- The three ways to end an attempt, with the claim or without it.
pub end_attempt-IsOutbox :
    (k : Uuid) (attempt : OutboxAttempt) (change : OutboxMessage → OutboxMessage)
    (s : InMemoryOrchestrationStore)
    → Keeps change
    → IsOutboxOf s
    → IsOutboxOf (end_attempt k attempt change s).1
end_attempt-IsOutbox k attempt change s keeps v =
    end_cases IsOutboxOf s k attempt change v λ m g held.
      update-IsOutbox v k m (change m) g (keeps.identity m) (keeps.message m (v.row k m g).message)
