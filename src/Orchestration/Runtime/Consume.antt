-- ===== src/Orchestration/Runtime/Consume.antt =====
-- apps/backend/crates/orchestration/src/runtime.rs: `consume_command` over the store in memory.
use pi_musubi_core.Prelude.{
  ◌<◌, ◌≤◌, String, ◌≡◌, ap, sym, subst, ◌⊎◌, inl, inr, true, false, none, some, Result, ok, err,
  arith, nat_eq, string_eq, option_eq, beq_refl, Result-cases, Bool-cases,
}
use pi_musubi_core.HashMap.{get}
use pi_musubi_core.HashMap.Laws.{get-insert_self}
use pi_musubi_core.Orchestration.Model.{
  Uuid, DateTime, OrchestrationError, CommandEnvelope, CommandKey, CommandInboxEntry,
  CommandCompletion, CommandQuarantine, ProcessingFailure, ConsumeOutcome, transient, permanent,
  deferred, command_key_eq, primary_writer, conflicting_command_envelope,
}
use pi_musubi_core.Orchestration.Store.{
  InMemoryOrchestrationStore, command_key, u32_succ, matches_inbox_entry, command_claim_matches,
}
use pi_musubi_core.Orchestration.Store.Inbox.{
  begin_command, end_command, put_entry, complete_command, schedule_command_retry,
  quarantine_command, completed_entry, retried_entry, quarantined_entry,
}
use pi_musubi_core.Orchestration.Store.Inbox.Idempotent.{
  IsHandedOut, Waits, IsFree, conflicts, repeats, waits, starts, resumes, begin_command-Begins,
}
use pi_musubi_core.Orchestration.Store.Prune.{is_command_terminal}
use pi_musubi_core.Orchestration.Policy.{Chrono, next_retry_at, classify}
use pi_musubi_core.Orchestration.Runtime.Interface.{in_memory}
use pi_musubi_core.Orchestration.Runtime.{
  Config, reason_for, should_retry, finish_command_failure, handle_claimed, handle_entry,
  consume_command,
}

-- A report under the claim that stands on the command is written.
end_command_held :
    (consumer : String) (id : Uuid) (until : DateTime)
    (change : CommandInboxEntry → CommandInboxEntry) (s : InMemoryOrchestrationStore)
    (e : CommandInboxEntry)
    → get (command_key consumer id) s.command_inbox ≡ some e
    → command_claim_matches e consumer until ≡ true
    → end_command consumer id until change s
      ≡ (ok tt, put_entry (command_key consumer id) (change e) s)
unfolding end_command
end_command_held consumer id until change s e g held = rw (g, held, end_command)

handed_out_matches :
    (consumer : String) (command : CommandEnvelope) (until : DateTime) (e : CommandInboxEntry)
    → IsHandedOut consumer command until e
    → command_claim_matches e consumer until ≡ true
unfolding command_claim_matches
handed_out_matches consumer command until e h = ground (arith, beq_refl consumer)

module _ (chrono : Chrono) (config : Config chrono) (consumer : String) (command : CommandEnvelope)
    (now : DateTime) (handle : CommandEnvelope → Result ProcessingFailure CommandCompletion) where
  open config use {retry_policy, retention_policy, schema_policy, claim_lease_for}

  abbrev key : CommandKey
  key = command_key consumer command.command_id

  abbrev until : DateTime
  until = chrono.add now claim_lease_for

  abbrev verdict : CommandInboxEntry → Result ProcessingFailure (Unit {0})
  verdict e = classify chrono schema_policy e.schema_version e.first_seen_at now

  -- Handling fails: the schema is not supported, or the handler fails.
  abbrev Fails : CommandInboxEntry → ProcessingFailure → Type 0
  Fails e f = (verdict e ≡ err f) ⊎ ((verdict e ≡ ok tt) × (handle command ≡ err f))

  abbrev retry_time : CommandInboxEntry → DateTime
  retry_time e = next_retry_at chrono retry_policy now command.command_id (u32_succ e.attempt_count)

  abbrev pub failed_end : CommandInboxEntry → ProcessingFailure → CommandQuarantine
  failed_end e f = record {
    quarantined_at = now;
    retain_until = chrono.add now retention_policy.quarantined_command_for;
    reason = reason_for f.class f.quarantine_reason;
    failure = f;
  }

  -- How the handling of a handed-out command ends: with its outcome and its row.
  pub data Handling (e : CommandInboxEntry) : ConsumeOutcome → CommandInboxEntry → Type 0 where
    completes :
        (c : CommandCompletion)
        → verdict e ≡ ok tt
        → handle command ≡ ok c
        → Handling e
            (ConsumeOutcome.completed command.command_id)
            (completed_entry now (chrono.add now retention_policy.completed_command_for) c e)
    retries :
        (f : ProcessingFailure)
        → Fails e f
        → (f.class ≡ deferred)
          ⊎ ((f.class ≡ transient) × (u32_succ e.attempt_count < retry_policy.max_attempts))
        → Handling e
            (ConsumeOutcome.retry_scheduled command.command_id (retry_time e))
            (retried_entry (retry_time e) f e)
    quarantines :
        (f : ProcessingFailure)
        → Fails e f
        → (f.class ≡ permanent)
          ⊎ ((f.class ≡ transient) × (retry_policy.max_attempts ≤ u32_succ e.attempt_count))
        → Handling e
            (ConsumeOutcome.quarantined command.command_id (reason_for f.class f.quarantine_reason))
            (quarantined_entry (failed_end e f) e)

  pub record Handles (s : InMemoryOrchestrationStore) (e : CommandInboxEntry)
      (r : Result OrchestrationError ConsumeOutcome × InMemoryOrchestrationStore) : Type 0 where
    pub outcome : ConsumeOutcome
    pub row : CommandInboxEntry
    pub handling : Handling e outcome row
    pub result : r ≡ (ok outcome, put_entry key row s)

  handle_entry-some :
      (e : CommandInboxEntry) (at : DateTime) (s : InMemoryOrchestrationStore)
      → e.claimed_until ≡ some at
      → handle_entry chrono in_memory config consumer command now handle e s
        ≡ handle_claimed chrono in_memory config consumer command now handle e at s
  unfolding handle_entry
  handle_entry-some e at s h = rw (h, handle_entry)

  stored_entry :
      (e : CommandInboxEntry) (s : InMemoryOrchestrationStore)
      → get key (put_entry key e s).command_inbox ≡ some e
  stored_entry e s = get-insert_self key e s.command_inbox

  module _ (s : InMemoryOrchestrationStore) (e : CommandInboxEntry)
      (stored : get key s.command_inbox ≡ some e) (out : IsHandedOut consumer command until e) where
    held : command_claim_matches e consumer until ≡ true
    held = handed_out_matches consumer command until e out

    Fails-Handles :
        (f : ProcessingFailure)
        → Fails e f
        → Handles s e (
            finish_command_failure chrono in_memory config consumer command.command_id until now
              (u32_succ e.attempt_count)
              f
              s)
    unfolding finish_command_failure schedule_command_retry quarantine_command
    Fails-Handles f bad =
        elim (Bool-cases
          (should_retry f.class (u32_succ e.attempt_count) retry_policy.max_attempts)) [
            | inl again ↦ record {
              outcome = ConsumeOutcome.retry_scheduled command.command_id (retry_time e);
              row = retried_entry (retry_time e) f e;
              handling = retries f bad (ground arith);
              result = rw (
                again,
                end_command_held consumer command.command_id until (retried_entry (retry_time e) f)
                    s e stored held,
                finish_command_failure,
                schedule_command_retry,
              );
            }
            | inr never ↦ record {
              outcome =
                  ConsumeOutcome.quarantined command.command_id
                    (reason_for f.class f.quarantine_reason);
              row = quarantined_entry (failed_end e f) e;
              handling = quarantines f bad (ground arith);
              result = rw (
                never,
                end_command_held consumer command.command_id until
                    (quarantined_entry (failed_end e f)) s e stored held,
                finish_command_failure,
                quarantine_command,
              );
            }
          ]

    handle_claimed-Handles :
        Handles s e (handle_claimed chrono in_memory config consumer command now handle e until s)
    unfolding handle_claimed complete_command
    handle_claimed-Handles = elim (Result-cases (verdict e)) [
      | inr (f, v) ↦ rw (v, handle_claimed) (Fails-Handles f (inl v))
      | inl (_, v) ↦ elim (Result-cases (handle command)) [
        | inr (f, p) ↦ rw (v, p, handle_claimed) (Fails-Handles f (inr (v, p)))
        | inl (c, p) ↦
            let retain = chrono.add now retention_policy.completed_command_for in
            record {
              outcome = ConsumeOutcome.completed command.command_id;
              row = completed_entry now retain c e;
              handling = completes c v p;
              result = rw (
                v,
                p,
                end_command_held consumer command.command_id until (completed_entry now retain c) s
                    e stored held,
                handle_claimed,
                complete_command,
              );
            }
      ]
    ]

    handle_entry-Handles :
        Handles s e (handle_entry chrono in_memory config consumer command now handle e s)
    handle_entry-Handles =
        subst (Handles s e) (sym (handle_entry-some e until s out.claimed_until))
          handle_claimed-Handles

  -- How `consume_command` ends: with an error for another envelope under a known key, without the
  -- handler for a command that is finished or that waits, or with one handling of the command.
  pub data Consumption (s : InMemoryOrchestrationStore)
      (r : Result OrchestrationError ConsumeOutcome × InMemoryOrchestrationStore) : Type 0 where
    conflicting :
        (e : CommandInboxEntry)
        → get key s.command_inbox ≡ some e
        → matches_inbox_entry command e ≡ false
        → r ≡ (err (conflicting_command_envelope consumer command.command_id), s)
        → Consumption s r
    finished :
        (e : CommandInboxEntry)
        → get key s.command_inbox ≡ some e
        → matches_inbox_entry command e ≡ true
        → is_command_terminal e.status ≡ true
        → r ≡ (ok (ConsumeOutcome.duplicate command.command_id), s)
        → Consumption s r
    waiting :
        (e : CommandInboxEntry) (at : DateTime)
        → get key s.command_inbox ≡ some e
        → matches_inbox_entry command e ≡ true
        → Waits e now at
        → r ≡ (ok (ConsumeOutcome.deferred command.command_id at), s)
        → Consumption s r
    handled :
        (e : CommandInboxEntry)
        → (get key s.command_inbox ≡ none)
          ⊎ ((old : CommandInboxEntry) × (get key s.command_inbox ≡ some old)
              × (matches_inbox_entry command old ≡ true)
              × IsFree old now
              × (e.attempt_count ≡ old.attempt_count)
              × (e.first_seen_at ≡ old.first_seen_at))
        → IsHandedOut consumer command until e
        → (begin_command primary_writer consumer command now until s).1 ≡ put_entry key e s
        → Handles (put_entry key e s) e r
        → Consumption s r

  -- On any store, to consume a command ends as `Consumption` says: a conflict with another
  -- envelope under the key, a duplicate of a finished command, a deferral of one that waits or is
  -- leased, or one handled attempt that ends completed, put back or quarantined.
  pub consume_command-Consumption :
      (s : InMemoryOrchestrationStore)
      → Consumption s (consume_command chrono in_memory config consumer command now handle s)
  unfolding consume_command
  consume_command-Consumption s = elim (begin_command-Begins consumer command now until s) [
    | conflicts e g other b ↦ conflicting e g other (rw (b, consume_command))
    | repeats e g same done b ↦ finished e g same done (rw (b, consume_command))
    | waits e d g same w b ↦ waiting e d.available_at g same w (rw (b, consume_command))
    | starts e absent out fresh b ↦ handled e (inl absent) out (ap (λ x. x.1) b) (
        rw (b, consume_command) (handle_entry-Handles (put_entry key e s) e (stored_entry e s) out))
    | resumes old e g same free out counts b ↦
        handled e (inr (old, g, same, free, counts.0, counts.1)) out (ap (λ x. x.1) b) (
          rw (b, consume_command)
            (handle_entry-Handles (put_entry key e s) e (stored_entry e s) out))
  ]
