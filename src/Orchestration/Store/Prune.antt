-- ===== src/Orchestration/Store/Prune.antt =====
-- apps/backend/crates/orchestration/src/store.rs: `prune_coordination`.
pub mod Exact
pub mod Valid
use pi_musubi_core.Prelude.{
  ℕ, ◌≡◌, Bool, true, false, not, ◌&&◌, Option, none, some, List, [], ◌∷◌, ◌++◌, map, Result, ok,
  err, PartialEq, ◌==◌, nat_eq, filter, if◌then◌else◌, leb,
}
use pi_musubi_core.HashMap.{HashMap, get, remove, values}
use pi_musubi_core.Orchestration.Model.{
  Uuid, DateTime, OutboxMessage, OutboxDeliveryStatus, CommandKey, CommandInboxEntry,
  CommandInboxStatus, PruneOutcome, published, completed, quarantined, command_key_eq,
}
use pi_musubi_core.Orchestration.Model.Exec.{Exec}
use pi_musubi_core.Orchestration.Store.{InMemoryOrchestrationStore, attempts_of}

-- `retain_until.is_some_and(|retain_until| retain_until <= now)`
abbrev pub is_over : Option DateTime → DateTime → Bool
is_over none now = false
is_over (some retain_until) now = leb retain_until now

abbrev pub is_terminal : OutboxDeliveryStatus → Bool
is_terminal published = true
is_terminal quarantined = true
is_terminal _ = false

abbrev pub is_command_terminal : CommandInboxStatus → Bool
is_command_terminal completed = true
is_command_terminal quarantined = true
is_command_terminal _ = false

unfoldable pub is_message_expired : DateTime → OutboxMessage → Bool
is_message_expired now message =
    is_terminal message.delivery_status && is_over message.retain_until now

unfoldable pub is_entry_expired : DateTime → CommandInboxEntry → Bool
is_entry_expired now entry = is_command_terminal entry.status && is_over entry.retain_until now

-- The body of the loop over `outbox_event_ids`.
unfoldable pub archive_message :
    DateTime → Uuid → InMemoryOrchestrationStore → InMemoryOrchestrationStore
archive_message now event_id s = elim (get event_id s.outbox_messages) [
  | none ↦ s
  | some message ↦ record s {
    outbox_messages = remove event_id s.outbox_messages;
    outbox_attempts = filter (λ attempt. not (attempt.event_id == event_id)) s.outbox_attempts;
    archived_outbox_messages =
        s.archived_outbox_messages
        ++ (record {
          message = message;
          attempts = attempts_of event_id s.outbox_attempts;
          pruned_at = now;
        })
          ∷ [];
  }
]

-- The body of the loop over `command_keys`.
unfoldable pub archive_entry :
    DateTime → CommandKey → InMemoryOrchestrationStore → InMemoryOrchestrationStore
archive_entry now key s = elim (get key s.command_inbox) [
  | none ↦ s
  | some entry ↦ record s {
    command_inbox = remove key s.command_inbox;
    archived_command_inbox =
        s.archived_command_inbox ++ (record { entry = entry; pruned_at = now }) ∷ [];
  }
]

-- The two loops.
unfoldable pub archive_messages :
    DateTime → List Uuid → InMemoryOrchestrationStore → InMemoryOrchestrationStore
archive_messages now [] s = s
archive_messages now (k ∷ ks) s = archive_messages now ks (archive_message now k s)

unfoldable pub archive_entries :
    DateTime → List CommandKey → InMemoryOrchestrationStore → InMemoryOrchestrationStore
archive_entries now [] s = s
archive_entries now (k ∷ ks) s = archive_entries now ks (archive_entry now k s)

unfoldable pub expired_event_ids : DateTime → InMemoryOrchestrationStore → List Uuid
expired_event_ids now s =
    map (λ message. message.event_id) (filter (is_message_expired now) (values s.outbox_messages))

unfoldable pub expired_command_keys : DateTime → InMemoryOrchestrationStore → List CommandKey
expired_command_keys now s =
    map (λ entry. entry.key) (filter (is_entry_expired now) (values s.command_inbox))

unfoldable pub prune_coordination : DateTime → Exec InMemoryOrchestrationStore PruneOutcome
prune_coordination now s =
    let ids = expired_event_ids now s in
    let s' = archive_messages now ids s in
    let keys = expired_command_keys now s' in
    let s'' = archive_entries now keys s' in
    (ok (record { pruned_outbox_event_ids = ids; pruned_command_keys = keys }), s'')
