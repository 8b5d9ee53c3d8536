-- ===== src/Orchestration/Store/Prune/Exact.antt =====
-- apps/backend/crates/orchestration/src/store.rs: `prune_coordination` removes the expired rows
-- that are finished, and nothing else.
use pi_musubi_core.Prelude.{◌≡◌, refl, ◌∙◌, ap, List, [], ◌∷◌, map, arith, nat_eq, filter}
use pi_musubi_core.HashMap.{get, remove, values}
use pi_musubi_core.HashMap.Select.{remove_all, remove_absent, keep_unless, get-remove_passing}
use pi_musubi_core.Orchestration.Model.{
  Uuid, DateTime, CommandKey, CommandInboxEntry, command_key_eq,
}
use pi_musubi_core.Orchestration.Store.{InMemoryOrchestrationStore}
use pi_musubi_core.Orchestration.Store.Outbox.Valid.{IsOutboxOf}
use pi_musubi_core.Orchestration.Store.Inbox.Valid.{IsInboxOf}
use pi_musubi_core.Orchestration.Store.Prune.{
  archive_message, archive_entry, archive_messages, archive_entries, expired_event_ids,
  expired_command_keys, is_message_expired, is_entry_expired, prune_coordination,
}

abbrev Store : Type 0
Store = InMemoryOrchestrationStore

archive_message-messages :
    (now : DateTime) (k : Uuid) (s : Store)
    → (archive_message now k s).outbox_messages ≡ remove k s.outbox_messages
unfolding archive_message
archive_message-messages now k s = ground (arith, remove_absent k s.outbox_messages)

archive_entry-inbox :
    (now : DateTime) (k : CommandKey) (s : Store)
    → (archive_entry now k s).command_inbox ≡ remove k s.command_inbox
unfolding archive_entry
archive_entry-inbox now k s = ground (arith, remove_absent k s.command_inbox)

archive_messages-messages :
    (now : DateTime) (ks : List Uuid) (s : Store)
    → (archive_messages now ks s).outbox_messages ≡ remove_all ks s.outbox_messages
unfolding archive_messages remove_all
archive_messages-messages now [] s = refl
archive_messages-messages now (k ∷ ks) s =
    archive_messages-messages now ks (archive_message now k s)
    ∙ ap (remove_all ks) (archive_message-messages now k s)

archive_entries-inbox :
    (now : DateTime) (ks : List CommandKey) (s : Store)
    → (archive_entries now ks s).command_inbox ≡ remove_all ks s.command_inbox
unfolding archive_entries remove_all
archive_entries-inbox now [] s = refl
archive_entries-inbox now (k ∷ ks) s =
    archive_entries-inbox now ks (archive_entry now k s)
    ∙ ap (remove_all ks) (archive_entry-inbox now k s)

-- The two loops work on different parts of the store.
archive_messages-inbox :
    (now : DateTime) (ks : List Uuid) (s : Store)
    → (archive_messages now ks s).command_inbox ≡ s.command_inbox
unfolding archive_messages archive_message
archive_messages-inbox now [] s = refl
archive_messages-inbox now (k ∷ ks) s =
    ground (arith, archive_messages-inbox now ks (archive_message now k s))

archive_entries-messages :
    (now : DateTime) (ks : List CommandKey) (s : Store)
    → (archive_entries now ks s).outbox_messages ≡ s.outbox_messages
unfolding archive_entries archive_entry
archive_entries-messages now [] s = refl
archive_entries-messages now (k ∷ ks) s =
    ground (arith, archive_entries-messages now ks (archive_entry now k s))

pub prune-messages :
    (now : DateTime) (s : Store)
    → (prune_coordination now s).1.outbox_messages
      ≡ remove_all (expired_event_ids now s) s.outbox_messages
unfolding prune_coordination
prune-messages now s =
    archive_entries-messages now _ (archive_messages now (expired_event_ids now s) s)
    ∙ archive_messages-messages now (expired_event_ids now s) s

pub prune-inbox :
    (now : DateTime) (s : Store)
    → (prune_coordination now s).1.command_inbox
      ≡ remove_all (expired_command_keys now s) s.command_inbox
unfolding prune_coordination expired_command_keys
prune-inbox now s =
    archive_entries-inbox now _ (archive_messages now (expired_event_ids now s) s)
    ∙ ap
        (λ inbox.
          remove_all
            (map (λ (x : CommandInboxEntry). x.key) (filter (is_entry_expired now) (values inbox)))
            inbox)
        (archive_messages-inbox now (expired_event_ids now s) s)

-- On a store whose outbox is well-formed, pruning keeps each message but the finished ones whose
-- time is over.
pub prune_exact_outbox :
    (now : DateTime) (s : Store) (k : Uuid)
    → IsOutboxOf s
    → get k (prune_coordination now s).1.outbox_messages
      ≡ keep_unless (is_message_expired now) (get k s.outbox_messages)
unfolding expired_event_ids
prune_exact_outbox now s k v =
    ap (get k) (prune-messages now s)
    ∙ get-remove_passing (λ m. m.event_id) (is_message_expired now) k s.outbox_messages v.distinct
        λ j m g. (v.row j m g).keyed

-- On a store whose inbox is well-formed, pruning keeps each command but the finished ones whose
-- time is over.
pub prune_exact_inbox :
    (now : DateTime) (s : Store) (k : CommandKey)
    → IsInboxOf s
    → get k (prune_coordination now s).1.command_inbox
      ≡ keep_unless (is_entry_expired now) (get k s.command_inbox)
unfolding expired_command_keys
prune_exact_inbox now s k v =
    ap (get k) (prune-inbox now s)
    ∙ get-remove_passing (λ x. x.key) (is_entry_expired now) k s.command_inbox v.distinct
        λ j x g. (v.row j x g).0
