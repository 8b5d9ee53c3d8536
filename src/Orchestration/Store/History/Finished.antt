-- ===== src/Orchestration/Store/History/Finished.antt =====
-- apps/backend/crates/orchestration/src/store.rs: a message or a command that is finished is never
-- changed again; only pruning takes it away.
use pi_musubi_core.Prelude.{String, ◌≡◌, ap, ◌∙◌, true, Option, some, arith, nat_eq}
use pi_musubi_core.HashMap.{get, insert}
use pi_musubi_core.HashMap.Laws.{get-insert}
use pi_musubi_core.HashMap.Select.{keep_unless}
use pi_musubi_core.Orchestration.Model.{
  Uuid, DateTime, WriterReadSource, OutboxMessage, OutboxAttempt, CommandKey, CommandEnvelope,
  CommandInboxEntry, command_key_eq, command_key_beq_iff,
}
use pi_musubi_core.Orchestration.Store.{
  InMemoryOrchestrationStore, outbox_attempt_matches, command_claim_matches, command_key, i64_succ,
}
use pi_musubi_core.Orchestration.Store.Outbox.{
  committed, stored_message, mark_outbox_published, schedule_outbox_retry, quarantine_outbox,
  is_ready, claimed, candidate, end_attempt,
}
use pi_musubi_core.Orchestration.Store.Outbox.Valid.{IsOutboxOf}
use pi_musubi_core.Orchestration.Store.Outbox.Claim.{candidate_ready}
use pi_musubi_core.Orchestration.Store.Outbox.Cases.{commit_cases, claim_cases, end_cases}
use pi_musubi_core.Orchestration.Store.Inbox.{
  complete_command, schedule_command_retry, quarantine_command, new_entry, begin_existing,
  begin_command, end_command,
}
use pi_musubi_core.Orchestration.Store.Inbox.Valid.{IsInboxOf}
use pi_musubi_core.Orchestration.Store.Inbox.Cases.{begin_cases, end_command_cases}
use pi_musubi_core.Orchestration.Store.Prune.{
  is_terminal, is_command_terminal, is_message_expired, is_entry_expired,
}
use pi_musubi_core.Orchestration.Store.Prune.Exact.{prune_exact_outbox, prune_exact_inbox}
use pi_musubi_core.Orchestration.Store.History.{
  Call, commit, claim, publish, retry, quarantine, begin, complete, retry_command,
  quarantine_of_command, prune, step, IsStore,
}

-- What a call leaves of a finished row: the row, unless the call prunes it.
abbrev pub left_message : Call → OutboxMessage → Option OutboxMessage
left_message (prune now) m = keep_unless (is_message_expired now) (some m)
left_message _ m = some m

abbrev pub left_entry : Call → CommandInboxEntry → Option CommandInboxEntry
left_entry (prune now) e = keep_unless (is_entry_expired now) (some e)
left_entry _ e = some e

module _ (s : InMemoryOrchestrationStore) (k : Uuid) (m : OutboxMessage)
    (stored : get k s.outbox_messages ≡ some m)
    (finished : is_terminal m.delivery_status ≡ true) where
  abbrev Stays : InMemoryOrchestrationStore → Type 0
  Stays t = get k t.outbox_messages ≡ some m

  not_held : (a : OutboxAttempt) → outbox_attempt_matches m a ≡ true → ⊥
  unfolding outbox_attempt_matches
  not_held a h = ground arith

  not_ready : (now : DateTime) → is_ready now m ≡ true → ⊥
  unfolding is_ready
  not_ready now h = ground arith

  end-Stays :
      (j : Uuid) (a : OutboxAttempt) (change : OutboxMessage → OutboxMessage)
      → Stays (end_attempt j a change s).1
  end-Stays j a change =
      end_cases Stays s j a change stored
        λ n g held. ground (arith, get-insert j k (change n) s.outbox_messages, not_held a)

  claim_stays :
      (relay : String) (now until : DateTime) (found n : OutboxMessage)
      → IsOutboxOf s
      → candidate now s ≡ some found
      → get found.event_id s.outbox_messages ≡ some n
      → get k (insert found.event_id (claimed relay until n) s.outbox_messages) ≡ some m
  claim_stays relay now until found n v e g = ground (
    arith,
    get-insert found.event_id k (claimed relay until n) s.outbox_messages,
    candidate_ready now s v found e,
    not_ready now,
  )

  -- A published or quarantined message of a well-formed store stays as it is under every call but
  -- a prune, which takes it away exactly when its time is over.
  pub finished_message_stays :
      (c : Call) → IsStore s → get k (step s c).outbox_messages ≡ left_message c m
  unfolding step mark_outbox_published schedule_outbox_retry quarantine_outbox complete_command
      schedule_command_retry quarantine_command committed
  finished_message_stays (commit source change message) v =
      commit_cases Stays s source change message stored λ absent _. ground (
        arith,
        get-insert message.event_id k (stored_message message (i64_succ s.next_causal_order))
            s.outbox_messages,
      )
  finished_message_stays (claim source relay now until) v =
      claim_cases Stays s source relay now until stored
        λ found n e g. claim_stays relay now until found n v.outbox e g
  finished_message_stays (publish j retain receipt a) v = end-Stays j a _
  finished_message_stays (retry j at f a) v = end-Stays j a _
  finished_message_stays (quarantine j at retain q f a) v = end-Stays j a _
  finished_message_stays (begin source consumer c now until) v =
      begin_cases Stays s source consumer c now until stored (λ _. stored) (λ _ _ _. stored)
  finished_message_stays (complete consumer id expected at retain c) v =
      end_command_cases Stays s consumer id expected _ stored (λ _ _ _. stored)
  finished_message_stays (retry_command consumer id expected at f) v =
      end_command_cases Stays s consumer id expected _ stored (λ _ _ _. stored)
  finished_message_stays (quarantine_of_command consumer id expected q) v =
      end_command_cases Stays s consumer id expected _ stored (λ _ _ _. stored)
  finished_message_stays (prune now) v =
      prune_exact_outbox now s k v.outbox ∙ ap (keep_unless (is_message_expired now)) stored

module _ (s : InMemoryOrchestrationStore) (k : CommandKey) (e : CommandInboxEntry)
    (stored : get k s.command_inbox ≡ some e) (finished : is_command_terminal e.status ≡ true) where
  abbrev Remains : InMemoryOrchestrationStore → Type 0
  Remains t = get k t.command_inbox ≡ some e

  not_held_command :
      (consumer : String) (expected : DateTime)
      → command_claim_matches e consumer expected ≡ true
      → ⊥
  unfolding command_claim_matches
  not_held_command consumer expected h = ground arith

  begin_finished :
      (consumer : String) (now until : DateTime)
      → (begin_existing e.status consumer now until e).1 ≡ e
  unfolding begin_existing
  begin_finished consumer now until = ground arith

  begin-Remains :
      (source : WriterReadSource) (consumer : String) (c : CommandEnvelope) (now until : DateTime)
      → Remains (begin_command source consumer c now until s).1
  begin-Remains source consumer c now until =
      begin_cases Remains s source consumer c now until stored
        (λ new. ground (
          arith,
          get-insert (command_key consumer c.command_id) k (new_entry consumer c now until)
              s.command_inbox,
          command_key_beq_iff (command_key consumer c.command_id) k,
        ))
        λ x g same. ground (
          arith,
          get-insert (command_key consumer c.command_id) k
              (begin_existing x.status consumer now until x).1 s.command_inbox,
          command_key_beq_iff (command_key consumer c.command_id) k,
          begin_finished consumer now until,
        )

  end-Remains :
      (consumer : String) (id : Uuid) (expected : DateTime)
      (change : CommandInboxEntry → CommandInboxEntry)
      → Remains (end_command consumer id expected change s).1
  end-Remains consumer id expected change =
      end_command_cases Remains s consumer id expected change stored λ x g held. ground (
        arith,
        get-insert (command_key consumer id) k (change x) s.command_inbox,
        command_key_beq_iff (command_key consumer id) k,
        not_held_command consumer expected,
      )

  pub entry_stays : (c : Call) → IsInboxOf s → get k (step s c).command_inbox ≡ left_entry c e
  unfolding step mark_outbox_published schedule_outbox_retry quarantine_outbox complete_command
      schedule_command_retry quarantine_command committed
  entry_stays (commit source change message) v =
      commit_cases Remains s source change message stored (λ _ _. stored)
  entry_stays (claim source relay now until) v =
      claim_cases Remains s source relay now until stored (λ _ _ _ _. stored)
  entry_stays (publish j retain receipt a) v = end_cases Remains s j a _ stored (λ _ _ _. stored)
  entry_stays (retry j at f a) v = end_cases Remains s j a _ stored (λ _ _ _. stored)
  entry_stays (quarantine j at retain q f a) v = end_cases Remains s j a _ stored (λ _ _ _. stored)
  entry_stays (begin source consumer c now until) v = begin-Remains source consumer c now until
  entry_stays (complete consumer id expected at retain c) v = end-Remains consumer id expected _
  entry_stays (retry_command consumer id expected at f) v = end-Remains consumer id expected _
  entry_stays (quarantine_of_command consumer id expected q) v = end-Remains consumer id expected _
  entry_stays (prune now) v =
      prune_exact_inbox now s k v ∙ ap (keep_unless (is_entry_expired now)) stored

  -- A completed or quarantined command of a well-formed store stays as it is under every call but
  -- a prune, which takes it away exactly when its time is over.
  pub finished_command_stays :
      (c : Call) → IsStore s → get k (step s c).command_inbox ≡ left_entry c e
  finished_command_stays c v = entry_stays c v.inbox
