-- ===== src/Orchestration/Store/Inbox/Valid.antt =====
-- apps/backend/crates/orchestration/src/store.rs: the invariant of the command inbox, and that
-- each operation of the inbox keeps it.
use pi_musubi_core.Prelude.{String, ◌≡◌, refl, ap, ◌∙◌, ◌≢◌, true, none, some, arith}
use pi_musubi_core.HashMap.{HashMap, get, remove, Distinct}
use pi_musubi_core.HashMap.Laws.{get-insert, Distinct-insert, get-remove, Distinct-remove}
use pi_musubi_core.Orchestration.Model.{
  Uuid, DateTime, WriterReadSource, CommandEnvelope, CommandKey, CommandInboxEntry,
  CommandInboxStatus, CommandCompletion, CommandQuarantine, ProcessingFailure, processing,
  completed, quarantined, command_key_eq, command_key_beq_iff,
}
use pi_musubi_core.Orchestration.Store.{InMemoryOrchestrationStore, command_key}
use pi_musubi_core.Orchestration.Store.Outbox.Rows.{is_some}
use pi_musubi_core.Orchestration.Store.Inbox.{
  begin_command, begin_existing, new_entry, put_entry, end_command, completed_entry, retried_entry,
  quarantined_entry,
}
use pi_musubi_core.Orchestration.Store.Inbox.Cases.{begin_cases, end_command_cases}

-- A lease stands on a command in `processing` and on no other, and its owner is the consumer of
-- the key; a finished command has the stamps of its end.
pub record IsCommand (e : CommandInboxEntry) : Type 0 where
  pub free : e.status ≢ processing → (e.claimed_by ≡ none) × (e.claimed_until ≡ none)
  pub leased :
      e.status ≡ processing
      → (e.claimed_by ≡ some e.key.consumer_name) × (is_some e.claimed_until ≡ true)
  pub completed_stamps :
      e.status ≡ completed
      → (is_some e.completed_at ≡ true)
        × (is_some e.retain_until ≡ true)
        × (is_some e.result_type ≡ true)
        × (is_some e.result_json ≡ true)
  pub quarantined_stamps :
      e.status ≡ quarantined
      → (is_some e.quarantined_at ≡ true)
        × (is_some e.retain_until ≡ true)
        × (is_some e.quarantine_reason ≡ true)

pub record KeepsCommand (change : CommandInboxEntry → CommandInboxEntry) : Type 0 where
  pub key : (e : CommandInboxEntry) → (change e).key ≡ e.key
  pub command : (e : CommandInboxEntry) → IsCommand e → IsCommand (change e)

pub completed-Keeps :
    (at retain : DateTime) (c : CommandCompletion) → KeepsCommand (completed_entry at retain c)
unfolding completed_entry
completed-Keeps at retain c = record { key = λ e. refl; command = λ e v. ground arith }

pub retried-Keeps : (at : DateTime) (f : ProcessingFailure) → KeepsCommand (retried_entry at f)
unfolding retried_entry
retried-Keeps at f = record { key = λ e. refl; command = λ e v. ground arith }

pub quarantined-Keeps : (q : CommandQuarantine) → KeepsCommand (quarantined_entry q)
unfolding quarantined_entry
quarantined-Keeps q = record { key = λ e. refl; command = λ e v. ground arith }

pub record IsInbox (inbox : HashMap CommandKey CommandInboxEntry) : Type 0 where
  pub distinct : Distinct inbox
  pub row :
      (k : CommandKey) (e : CommandInboxEntry) → get k inbox ≡ some e → (e.key ≡ k) × IsCommand e

abbrev pub IsInboxOf : InMemoryOrchestrationStore → Type 0
IsInboxOf s = IsInbox s.command_inbox

pub put_entry-IsInbox :
    (k : CommandKey) (e : CommandInboxEntry) (s : InMemoryOrchestrationStore)
    → e.key ≡ k
    → IsCommand e
    → IsInboxOf s
    → IsInboxOf (put_entry k e s)
put_entry-IsInbox k e s own valid v = record {
  distinct = Distinct-insert k e s.command_inbox v.distinct;
  row =
      λ j x h. ground (arith, get-insert k j e s.command_inbox, command_key_beq_iff k j, v.row j x);
}

pub remove-IsInbox :
    {inbox : HashMap CommandKey CommandInboxEntry} (k : CommandKey)
    → IsInbox inbox
    → IsInbox (remove k inbox)
remove-IsInbox {inbox} k v = record {
  distinct = Distinct-remove k inbox v.distinct;
  row = λ j x h. ground (arith, get-remove k j inbox v.distinct, v.row j x);
}

new_entry-IsCommand :
    (consumer : String) (c : CommandEnvelope) (now until : DateTime)
    → IsCommand (new_entry consumer c now until)
unfolding new_entry
new_entry-IsCommand consumer c now until = ground arith

begin_existing-IsCommand :
    (status : CommandInboxStatus) (consumer : String) (now until : DateTime) (e : CommandInboxEntry)
    → e.key.consumer_name ≡ consumer
    → IsCommand e
    → IsCommand (begin_existing status consumer now until e).1
unfolding begin_existing
begin_existing-IsCommand status consumer now until e own v = ground arith

begin_existing-key :
    (status : CommandInboxStatus) (consumer : String) (now until : DateTime) (e : CommandInboxEntry)
    → (begin_existing status consumer now until e).1.key ≡ e.key
unfolding begin_existing
begin_existing-key status consumer now until e = ground arith

new_entry-key :
    (consumer : String) (c : CommandEnvelope) (now until : DateTime)
    → (new_entry consumer c now until).key ≡ command_key consumer c.command_id
unfolding new_entry
new_entry-key consumer c now until = refl

pub begin_command-IsInbox :
    (source : WriterReadSource) (consumer : String) (c : CommandEnvelope) (now until : DateTime)
    (s : InMemoryOrchestrationStore)
    → IsInboxOf s
    → IsInboxOf (begin_command source consumer c now until s).1
begin_command-IsInbox source consumer c now until s v =
    begin_cases IsInboxOf s source consumer c now until v
      (λ new.
        put_entry-IsInbox _ _ s (new_entry-key consumer c now until)
          (new_entry-IsCommand consumer c now until) v)
      λ e g same.
        let (own, valid) = v.row (command_key consumer c.command_id) e g in
        put_entry-IsInbox _ _ s (begin_existing-key e.status consumer now until e ∙ own)
          (begin_existing-IsCommand e.status consumer now until e
            (ap (λ (k : CommandKey). k.consumer_name) own) valid)
          v

-- The three ways to end a command's attempt, with the claim or without it.
pub end_command-IsInbox :
    (consumer : String) (id : Uuid) (expected : DateTime)
    (change : CommandInboxEntry → CommandInboxEntry) (s : InMemoryOrchestrationStore)
    → KeepsCommand change
    → IsInboxOf s
    → IsInboxOf (end_command consumer id expected change s).1
end_command-IsInbox consumer id expected change s keeps v =
    end_command_cases IsInboxOf s consumer id expected change v λ e g held.
      let (own, valid) = v.row (command_key consumer id) e g in
      put_entry-IsInbox _ _ s (keeps.key e ∙ own) (keeps.command e valid) v
