-- ===== src/Orchestration/Store/Prune/Valid.antt =====
-- apps/backend/crates/orchestration/src/store.rs: `prune_coordination` keeps the invariants.
use pi_musubi_core.Prelude.{
  ◌≡◌, sym, subst, not, List, [], ◌∷◌, arith, ◌==◌, nat_eq, inl, inr, if◌then◌else◌, length, filter,
  Option-cases,
}
use pi_musubi_core.HashMap.{HashMap, get, remove}
use pi_musubi_core.HashMap.Laws.{get-remove}
use pi_musubi_core.HashMap.Select.{remove_all}
use pi_musubi_core.Orchestration.Model.{
  Uuid, DateTime, OutboxAttempt, CommandKey, CommandInboxEntry, command_key_eq,
}
use pi_musubi_core.Orchestration.Store.{InMemoryOrchestrationStore, attempts_of}
use pi_musubi_core.Orchestration.Store.Outbox.Valid.{IsOutboxOf, remove-IsOutbox}
use pi_musubi_core.Orchestration.Store.Outbox.Attempts.{IsLogged}
use pi_musubi_core.Orchestration.Store.Inbox.Valid.{IsInbox, IsInboxOf, remove-IsInbox}
use pi_musubi_core.Orchestration.Store.Prune.{
  archive_message, archive_entry, archive_messages, archive_entries, expired_event_ids,
  prune_coordination,
}
use pi_musubi_core.Orchestration.Store.Prune.Exact.{prune-inbox}

without_attempts :
    (j k : Uuid) (log : List OutboxAttempt)
    → length (attempts_of j (filter (λ a. not (a.event_id == k)) log))
      ≡ (if k == j then 0 else length (attempts_of j log))
without_attempts j k [] = ground arith
without_attempts j k (a ∷ log) = ground (arith, without_attempts j k log)

-- The outbox and its log.
record IsOutboxLog (s : InMemoryOrchestrationStore) : Type 0 where
  outbox : IsOutboxOf s
  logged : IsLogged s

archive_message-IsOutboxLog :
    (now : DateTime) (k : Uuid) (s : InMemoryOrchestrationStore)
    → IsOutboxLog s
    → IsOutboxLog (archive_message now k s)
unfolding archive_message
archive_message-IsOutboxLog now k s v = elim (Option-cases (get k s.outbox_messages)) [
  | inl missing ↦ rw (missing, archive_message) v
  | inr (m, g) ↦
      rw (g, archive_message)
        (record {
          outbox = remove-IsOutbox v.outbox k;
          logged = λ j. ground (
            arith,
            get-remove k j s.outbox_messages v.outbox.distinct,
            without_attempts j k s.outbox_attempts,
            v.logged j,
          );
        })
]

archive_messages-IsOutboxLog :
    (now : DateTime) (ks : List Uuid) (s : InMemoryOrchestrationStore)
    → IsOutboxLog s
    → IsOutboxLog (archive_messages now ks s)
unfolding archive_messages
archive_messages-IsOutboxLog now [] s v = v
archive_messages-IsOutboxLog now (k ∷ ks) s v =
    archive_messages-IsOutboxLog now ks (archive_message now k s)
      (archive_message-IsOutboxLog now k s v)

archive_entry-IsOutboxLog :
    (now : DateTime) (k : CommandKey) (s : InMemoryOrchestrationStore)
    → IsOutboxLog s
    → IsOutboxLog (archive_entry now k s)
unfolding archive_entry
archive_entry-IsOutboxLog now k s v = elim (Option-cases (get k s.command_inbox)) [
  | inl missing ↦ rw (missing, archive_entry) v
  | inr (m, g) ↦ rw (g, archive_entry) (record { outbox = v.outbox; logged = v.logged })
]

archive_entries-IsOutboxLog :
    (now : DateTime) (ks : List CommandKey) (s : InMemoryOrchestrationStore)
    → IsOutboxLog s
    → IsOutboxLog (archive_entries now ks s)
unfolding archive_entries
archive_entries-IsOutboxLog now [] s v = v
archive_entries-IsOutboxLog now (k ∷ ks) s v =
    archive_entries-IsOutboxLog now ks (archive_entry now k s) (archive_entry-IsOutboxLog now k s v)

prune-IsOutboxLog :
    (now : DateTime) (s : InMemoryOrchestrationStore)
    → IsOutboxLog s
    → IsOutboxLog (prune_coordination now s).1
unfolding prune_coordination
prune-IsOutboxLog now s v =
    archive_entries-IsOutboxLog now _ _
      (archive_messages-IsOutboxLog now (expired_event_ids now s) s v)

pub prune-IsOutbox :
    (now : DateTime) (s : InMemoryOrchestrationStore)
    → IsOutboxOf s
    → IsLogged s
    → IsOutboxOf (prune_coordination now s).1
prune-IsOutbox now s v l = (prune-IsOutboxLog now s (record { outbox = v; logged = l })).outbox

pub prune-IsLogged :
    (now : DateTime) (s : InMemoryOrchestrationStore)
    → IsOutboxOf s
    → IsLogged s
    → IsLogged (prune_coordination now s).1
prune-IsLogged now s v l = (prune-IsOutboxLog now s (record { outbox = v; logged = l })).logged

remove_all-IsInbox :
    (ks : List CommandKey) (m : HashMap CommandKey CommandInboxEntry)
    → IsInbox m
    → IsInbox (remove_all ks m)
unfolding remove_all
remove_all-IsInbox [] m v = v
remove_all-IsInbox (k ∷ ks) m v = remove_all-IsInbox ks (remove k m) (remove-IsInbox k v)

pub prune-IsInbox :
    (now : DateTime) (s : InMemoryOrchestrationStore)
    → IsInboxOf s
    → IsInboxOf (prune_coordination now s).1
prune-IsInbox now s v =
    subst IsInbox (sym (prune-inbox now s)) (remove_all-IsInbox _ s.command_inbox v)
