-- ===== src/Orchestration/Store/Inbox/Cases.antt =====
-- apps/backend/crates/orchestration/src/store.rs: how each operation of the inbox can end, as a
-- rule for what holds of the store after it.
use pi_musubi_core.Prelude.{
  String, ◌≡◌, inl, inr, true, none, some, nat_eq, Option-cases, Bool-cases,
}
use pi_musubi_core.HashMap.{get}
use pi_musubi_core.Orchestration.Model.{
  Uuid, DateTime, WriterReadSource, CommandEnvelope, CommandInboxEntry, command_key_eq,
}
use pi_musubi_core.Orchestration.Store.{
  InMemoryOrchestrationStore, command_key, matches_inbox_entry, ensure_matching_command,
  command_claim_matches,
}
use pi_musubi_core.Orchestration.Store.Inbox.{
  begin_command, begin_existing, new_entry, put_entry, end_command,
}

module _ (P : InMemoryOrchestrationStore → Type 0) (s : InMemoryOrchestrationStore) where
  pub begin_cases :
      (source : WriterReadSource) (consumer : String) (command : CommandEnvelope)
      (now until : DateTime)
      → P s
      → (get (command_key consumer command.command_id) s.command_inbox ≡ none
          → P (
              put_entry
                (command_key consumer command.command_id)
                (new_entry consumer command now until)
                s))
      → ((entry : CommandInboxEntry)
          → get (command_key consumer command.command_id) s.command_inbox ≡ some entry
          → matches_inbox_entry command entry ≡ true
          → P (
              put_entry
                (command_key consumer command.command_id)
                (begin_existing entry.status consumer now until entry).1
                s))
      → P (begin_command source consumer command now until s).1
  unfolding begin_command ensure_matching_command
  begin_cases WriterReadSource.read_replica consumer command now until refused new known = refused
  begin_cases WriterReadSource.primary_writer consumer command now until refused new known =
      elim (Option-cases (get (command_key consumer command.command_id) s.command_inbox)) [
        | inl e ↦ rw (e, begin_command) (new e)
        | inr (entry, e) ↦ elim (Bool-cases (matches_inbox_entry command entry)) [
          | inl same ↦ rw (e, same, begin_command, ensure_matching_command) (known entry e same)
          | inr other ↦ rw (e, other, begin_command, ensure_matching_command) refused
        ]
      ]

  pub end_command_cases :
      (consumer : String) (id : Uuid) (expected : DateTime)
      (change : CommandInboxEntry → CommandInboxEntry)
      → P s
      → ((entry : CommandInboxEntry)
          → get (command_key consumer id) s.command_inbox ≡ some entry
          → command_claim_matches entry consumer expected ≡ true
          → P (put_entry (command_key consumer id) (change entry) s))
      → P (end_command consumer id expected change s).1
  unfolding end_command
  end_command_cases consumer id expected change refused accepted =
      elim (Option-cases (get (command_key consumer id) s.command_inbox)) [
        | inl missing ↦ rw (missing, end_command) refused
        | inr (entry, g) ↦ elim (Bool-cases (command_claim_matches entry consumer expected)) [
          | inl held ↦ rw (g, held, end_command) (accepted entry g held)
          | inr stale ↦ rw (g, stale, end_command) refused
        ]
      ]
