-- ===== src/Orchestration/Store/Outbox/Attempts.antt =====
-- apps/backend/crates/orchestration/src/store.rs: the attempt log agrees with the counters.
use pi_musubi_core.Prelude.{
  ℕ, ◌+◌, ◌%◌, ◌^◌, String, ◌≡◌, ap, ◌∙◌, Option, none, some, List, [], ◌∷◌, ◌++◌, arith, ◌==◌,
  nat_eq, length, length-append, filter-append,
}
use pi_musubi_core.HashMap.{get}
use pi_musubi_core.HashMap.Laws.{get-insert}
use pi_musubi_core.Orchestration.Model.{
  Uuid, DateTime, WriterReadSource, AuthoritativeChange, NewOutboxMessage, OutboxMessage,
  OutboxAttempt,
}
use pi_musubi_core.Orchestration.Store.{InMemoryOrchestrationStore, attempts_of, u32_succ, i64_succ}
use pi_musubi_core.Orchestration.Store.Outbox.{
  commit_authoritative_write, committed, stored_message, claim_ready_outbox, claimed, end_attempt,
}
use pi_musubi_core.Orchestration.Store.Outbox.Cases.{commit_cases, claim_cases, end_cases}

-- The log has as many attempts for an event as its message counts, and none for an event that
-- has no message.
abbrev pub Logged : Option OutboxMessage → ℕ → Type 0
Logged none n = n ≡ 0
Logged (some m) n = m.attempt_count ≡ n % 2 ^ 32

abbrev pub IsLogged : InMemoryOrchestrationStore → Type 0
IsLogged s =
    (k : Uuid) → Logged (get k s.outbox_messages) (length (attempts_of k s.outbox_attempts))

pub commit_authoritative_write-IsLogged :
    (source : WriterReadSource) (change : AuthoritativeChange) (message : NewOutboxMessage)
    (s : InMemoryOrchestrationStore)
    → IsLogged s
    → IsLogged (commit_authoritative_write source change message s).1
commit_authoritative_write-IsLogged source change message s l =
    commit_cases IsLogged s source change message l λ absent fresh k.
      unfold committed stored_message in
      ground (
        arith,
        get-insert message.event_id k (stored_message message (i64_succ s.next_causal_order))
            s.outbox_messages,
        l k,
      )

pub claim_ready_outbox-IsLogged :
    (source : WriterReadSource) (relay : String) (now until : DateTime)
    (s : InMemoryOrchestrationStore)
    → IsLogged s
    → IsLogged (claim_ready_outbox source relay now until s).1
unfolding claimed
claim_ready_outbox-IsLogged source relay now until s l =
    claim_cases IsLogged s source relay now until l λ found m e g k.
      ground (arith, get-insert found.event_id k (claimed relay until m) s.outbox_messages, l k)

attempts_of-snoc :
    (k : Uuid) (attempt : OutboxAttempt) (log : List OutboxAttempt)
    → length (attempts_of k (log ++ attempt ∷ []))
      ≡ length (attempts_of k log) + length (attempts_of k (attempt ∷ []))
attempts_of-snoc k attempt log =
    ap length (filter-append (λ a. a.event_id == k) log (attempt ∷ []))
    ∙ length-append (attempts_of k log) (attempts_of k (attempt ∷ []))

-- An attempt is logged under the event that it is for.
pub end_attempt-IsLogged :
    (k : Uuid) (attempt : OutboxAttempt) (change : OutboxMessage → OutboxMessage)
    (s : InMemoryOrchestrationStore)
    → attempt.event_id ≡ k
    → ((m : OutboxMessage) → (change m).attempt_count ≡ u32_succ m.attempt_count)
    → IsLogged s
    → IsLogged (end_attempt k attempt change s).1
end_attempt-IsLogged k attempt change s own counts l =
    end_cases IsLogged s k attempt change l λ m g held j. ground (
      arith,
      get-insert k j (change m) s.outbox_messages,
      attempts_of-snoc j attempt s.outbox_attempts,
      counts m,
      l j,
    )
