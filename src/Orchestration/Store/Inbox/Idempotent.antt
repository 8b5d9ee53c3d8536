-- ===== src/Orchestration/Store/Inbox/Idempotent.antt =====
-- apps/backend/crates/orchestration/src/store.rs: every way in which `begin_command` ends for the
-- primary writer.
use pi_musubi_core.Prelude.{
  ◌<◌, ◌≤◌, String, ◌≡◌, refl, ap, ◌⊎◌, inl, inr, true, false, Option, none, some, Result, ok, err,
  arith, string_eq, nat_eq, beq_refl, Option-cases, Bool-cases, ltb,
}
use pi_musubi_core.HashMap.{get}
use pi_musubi_core.HashMap.Select.{insert-get_self}
use pi_musubi_core.Orchestration.Model.{
  Uuid, DateTime, OrchestrationError, CommandEnvelope, CommandInboxEntry, CommandInboxStatus,
  CommandBeginOutcome, first_seen, ready_for_retry, duplicate, deferred, pending, processing,
  completed, quarantined, primary_writer, conflicting_command_envelope, command_key_eq,
}
use pi_musubi_core.Orchestration.Store.{
  InMemoryOrchestrationStore, command_key, matches_inbox_entry, ensure_matching_command,
}
use pi_musubi_core.Orchestration.Store.Inbox.{
  begin_command, begin_existing, new_entry, reclaimed, put_entry, is_after,
}
use pi_musubi_core.Orchestration.Store.Prune.{is_command_terminal}

pub put_entry_self :
    (consumer : String) (id : Uuid) (e : CommandInboxEntry) (s : InMemoryOrchestrationStore)
    → get (command_key consumer id) s.command_inbox ≡ some e
    → put_entry (command_key consumer id) e s ≡ s
put_entry_self consumer id e s g =
    ap (λ inbox. record s { command_inbox = inbox })
      (insert-get_self (command_key consumer id) e s.command_inbox g)

-- A command that may not be handled yet: until `at` it waits for its retry or for a lease.
abbrev pub Waits : CommandInboxEntry → DateTime → DateTime → Type 0
Waits e now at =
    ((e.status ≡ pending) × (now < e.available_at) × (at ≡ e.available_at))
    ⊎ ((e.status ≡ processing) × (now < at) × (e.claimed_until ≡ some at))

-- A command that may be handled again: its retry is due, or its lease is over.
abbrev pub IsFree : CommandInboxEntry → DateTime → Type 0
IsFree e now =
    ((e.status ≡ pending) × (e.available_at ≤ now))
    ⊎ ((e.status ≡ processing) × (is_after e.claimed_until now ≡ false))

-- A row that hands its command to the consumer.
pub record IsHandedOut (consumer : String) (command : CommandEnvelope) (until : DateTime)
    (e : CommandInboxEntry) : Type 0 where
  pub status : e.status ≡ processing
  pub claimed_by : e.claimed_by ≡ some consumer
  pub claimed_until : e.claimed_until ≡ some until
  pub same_envelope : matches_inbox_entry command e ≡ true

module _ (consumer : String) (command : CommandEnvelope) (now until : DateTime)
    (s : InMemoryOrchestrationStore) where
  abbrev result : Result OrchestrationError CommandBeginOutcome × InMemoryOrchestrationStore
  result = begin_command primary_writer consumer command now until s

  abbrev row : Option CommandInboxEntry
  row = get (command_key consumer command.command_id) s.command_inbox

  -- How `begin_command` ends.
  pub data Begins : Type 0 where
    conflicts :
        (e : CommandInboxEntry)
        → row ≡ some e
        → matches_inbox_entry command e ≡ false
        → result ≡ (err (conflicting_command_envelope consumer command.command_id), s)
        → Begins
    repeats :
        (e : CommandInboxEntry)
        → row ≡ some e
        → matches_inbox_entry command e ≡ true
        → is_command_terminal e.status ≡ true
        → result ≡ (ok (duplicate e), s)
        → Begins
    waits :
        (e deferred_entry : CommandInboxEntry)
        → row ≡ some e
        → matches_inbox_entry command e ≡ true
        → Waits e now deferred_entry.available_at
        → result ≡ (ok (deferred deferred_entry), s)
        → Begins
    starts :
        (e : CommandInboxEntry)
        → row ≡ none
        → IsHandedOut consumer command until e
        → (e.attempt_count ≡ 0) × (e.first_seen_at ≡ now)
        → result ≡ (ok (first_seen e), put_entry (command_key consumer command.command_id) e s)
        → Begins
    resumes :
        (old e : CommandInboxEntry)
        → row ≡ some old
        → matches_inbox_entry command old ≡ true
        → IsFree old now
        → IsHandedOut consumer command until e
        → (e.attempt_count ≡ old.attempt_count) × (e.first_seen_at ≡ old.first_seen_at)
        → result ≡ (ok (ready_for_retry e), put_entry (command_key consumer command.command_id) e s)
        → Begins

  new_entry-IsHandedOut : IsHandedOut consumer command until (new_entry consumer command now until)
  unfolding new_entry matches_inbox_entry
  new_entry-IsHandedOut = record {
    status = refl;
    claimed_by = refl;
    claimed_until = refl;
    same_envelope = ground (arith, beq_refl command.command_type, beq_refl command.payload_hash);
  }

  reclaimed-IsHandedOut :
      (e : CommandInboxEntry)
      → matches_inbox_entry command e ≡ true
      → IsHandedOut consumer command until (reclaimed consumer until e)
  unfolding reclaimed matches_inbox_entry
  reclaimed-IsHandedOut e same = record {
    status = refl;
    claimed_by = refl;
    claimed_until = refl;
    same_envelope = same;
  }

  -- The outcome and the row for a stored command with the same envelope.
  begun :
      (e : CommandInboxEntry)
      → row ≡ some e
      → matches_inbox_entry command e ≡ true
      → (let b = begin_existing e.status consumer now until e in
          result ≡ (ok b.0, put_entry (command_key consumer command.command_id) b.1 s))
  unfolding begin_command ensure_matching_command
  begun e g same = rw (g, same, begin_command, ensure_matching_command)

  quiet :
      (e : CommandInboxEntry) (o : CommandBeginOutcome)
      → row ≡ some e
      → matches_inbox_entry command e ≡ true
      → begin_existing e.status consumer now until e ≡ (o, e)
      → result ≡ (ok o, s)
  quiet e o g same b = rw (begun e g same, b, put_entry_self consumer command.command_id e s g)

  -- A finished command is reported, and nothing changes.
  pub begin_terminal :
      (e : CommandInboxEntry)
      → row ≡ some e
      → matches_inbox_entry command e ≡ true
      → is_command_terminal e.status ≡ true
      → result ≡ (ok (duplicate e), s)
  unfolding begin_existing
  begin_terminal e g same done = quiet e (duplicate e) g same (ground arith)

  resume :
      (e : CommandInboxEntry)
      → row ≡ some e
      → matches_inbox_entry command e ≡ true
      → IsFree e now
      → begin_existing e.status consumer now until e
        ≡ (ready_for_retry (reclaimed consumer until e), reclaimed consumer until e)
      → Begins
  resume e g same free b =
      resumes e (reclaimed consumer until e) g same free (reclaimed-IsHandedOut e same)
        (unfold reclaimed in (refl, refl)) (rw (begun e g same, b))

  by_status :
      (status : CommandInboxStatus) (e : CommandInboxEntry)
      → e.status ≡ status
      → row ≡ some e
      → matches_inbox_entry command e ≡ true
      → Begins
  unfolding begin_existing
  by_status completed e st g same =
      repeats e g same (ground arith) (quiet e (duplicate e) g same (ground arith))
  by_status quarantined e st g same =
      repeats e g same (ground arith) (quiet e (duplicate e) g same (ground arith))
  by_status pending e st g same = elim (Bool-cases (ltb now e.available_at)) [
    | inl later ↦
        waits e e g same (inl (st, ground arith, refl)) (quiet e (deferred e) g same (ground arith))
    | inr over ↦ resume e g same (inl (st, ground arith)) (ground arith)
  ]
  by_status processing e st g same = elim (Option-cases e.claimed_until) [
    | inl free ↦ resume e g same (inr (st, ground arith)) (ground arith)
    | inr (at, leased) ↦ elim (Bool-cases (ltb now at)) [
      | inl runs ↦
          waits e (record e { available_at = at }) g same (inr (st, ground arith, leased))
            (quiet e (deferred (record e { available_at = at })) g same (ground arith))
      | inr over ↦ resume e g same (inr (st, ground arith)) (ground arith)
    ]
  ]

  -- `begin_command` refuses another envelope under a known key, reports a finished command as a
  -- duplicate, defers one that waits or is leased, and otherwise hands the command out.
  pub begin_command-Begins : Begins
  unfolding begin_command ensure_matching_command
  begin_command-Begins = elim (Option-cases row) [
    | inl absent ↦
        starts (new_entry consumer command now until) absent new_entry-IsHandedOut
          (unfold new_entry in (refl, refl)) (rw (absent, begin_command))
    | inr (e, g) ↦ elim (Bool-cases (matches_inbox_entry command e)) [
      | inl same ↦ by_status e.status e refl g same
      | inr other ↦ conflicts e g other (rw (g, other, begin_command, ensure_matching_command))
    ]
  ]
