-- ===== src/Orchestration/Runtime/Once.antt =====
-- apps/backend/crates/orchestration/src/runtime.rs: a command that has been handled to its end is
-- not handled again while its row is retained.
use pi_musubi_core.Prelude.{
  ◌<◌, String, ◌≡◌, refl, ◌∙◌, subst, ◌⊎◌, true, some, List, [], ◌∷◌, Result, ok, arith, nat_eq,
  string_eq,
}
use pi_musubi_core.HashMap.{get}
use pi_musubi_core.HashMap.Laws.{get-insert_self}
use pi_musubi_core.Orchestration.Model.{
  Uuid, DateTime, CommandEnvelope, CommandInboxEntry, CommandCompletion, CommandKey,
  ProcessingFailure, QuarantineReason, ConsumeOutcome, command_key_eq, primary_writer,
}
use pi_musubi_core.Orchestration.Store.{
  InMemoryOrchestrationStore, command_key, matches_inbox_entry,
}
use pi_musubi_core.Orchestration.Store.Inbox.{
  begin_command, put_entry, completed_entry, quarantined_entry,
}
use pi_musubi_core.Orchestration.Store.Inbox.Valid.{
  IsCommand, IsInboxOf, put_entry-IsInbox, begin_command-IsInbox, completed-Keeps,
  quarantined-Keeps,
}
use pi_musubi_core.Orchestration.Store.Inbox.Idempotent.{begin_terminal}
use pi_musubi_core.Orchestration.Store.Prune.{is_command_terminal, is_entry_expired}
use pi_musubi_core.Orchestration.Store.History.{
  Call, commit, claim, publish, retry, quarantine, begin, complete, retry_command,
  quarantine_of_command, prune, step, run, step-IsInbox,
}
use pi_musubi_core.Orchestration.Store.History.Finished.{left_entry, entry_stays}
use pi_musubi_core.Orchestration.Policy.{Chrono}
use pi_musubi_core.Orchestration.Runtime.Interface.{in_memory}
use pi_musubi_core.Orchestration.Runtime.{Config, consume_command}
use pi_musubi_core.Orchestration.Runtime.Consume.{
  Handling, completes, retries, quarantines, conflicting, finished, waiting, handled, failed_end,
  consume_command-Consumption,
}

-- An outcome after which the command is over.
abbrev pub IsFinal : Uuid → ConsumeOutcome → Type 0
IsFinal id o =
    (o ≡ ConsumeOutcome.completed id)
    ⊎ ((r : QuarantineReason) × (o ≡ ConsumeOutcome.quarantined id r))

-- The prunes among some calls come before an instant.
abbrev pub PrunesBefore : DateTime → List Call → Type 0
PrunesBefore until [] = Unit
PrunesBefore until (prune at ∷ cs) = (at < until) × PrunesBefore until cs
PrunesBefore until (c ∷ cs) = PrunesBefore until cs

left_before :
    (until : DateTime) (c : Call) (cs : List Call) (e : CommandInboxEntry)
    → PrunesBefore until (c ∷ cs)
    → e.retain_until ≡ some until
    → (left_entry c e ≡ some e) × PrunesBefore until cs
unfolding is_entry_expired
left_before until (prune at) cs e before r = (ground (arith, before.0), before.1)
left_before until (commit source change message) cs e before r = (refl, before)
left_before until (claim source relay now at) cs e before r = (refl, before)
left_before until (publish k at receipt a) cs e before r = (refl, before)
left_before until (retry k at f a) cs e before r = (refl, before)
left_before until (quarantine k at retain q f a) cs e before r = (refl, before)
left_before until (begin source consumer c now at) cs e before r = (refl, before)
left_before until (complete consumer id expected at retain c) cs e before r = (refl, before)
left_before until (retry_command consumer id expected at f) cs e before r = (refl, before)
left_before until (quarantine_of_command consumer id expected q) cs e before r = (refl, before)

-- A finished command stays over calls whose prunes come before its time is over.
finished-run :
    (until : DateTime) (k : CommandKey) (e : CommandInboxEntry) (cs : List Call)
    (s : InMemoryOrchestrationStore)
    → IsInboxOf s
    → get k s.command_inbox ≡ some e
    → is_command_terminal e.status ≡ true
    → e.retain_until ≡ some until
    → PrunesBefore until cs
    → get k (run s cs).command_inbox ≡ some e
unfolding run
finished-run until k e [] s v g done r before = g
finished-run until k e (c ∷ cs) s v g done r before =
    let (left, rest) = left_before until c cs e before r in
    finished-run until k e cs (step s c) (step-IsInbox s c v) (entry_stays s k e g done c v ∙ left)
      done r rest

module _ (chrono : Chrono) (config : Config chrono) (consumer : String)
    (command : CommandEnvelope) where
  abbrev Handler : Type 0
  Handler = CommandEnvelope → Result ProcessingFailure CommandCompletion

  -- How long the row of a finished command is retained.
  abbrev pub retained_until : DateTime → ConsumeOutcome → DateTime
  retained_until now (ConsumeOutcome.completed id) =
      chrono.add now config.retention_policy.completed_command_for
  retained_until now _ = chrono.add now config.retention_policy.quarantined_command_for

  record FinalRow (now : DateTime) (o : ConsumeOutcome) (e row : CommandInboxEntry) : Type 0 where
    terminal : is_command_terminal row.status ≡ true
    same_envelope : matches_inbox_entry command row ≡ true
    retained : row.retain_until ≡ some (retained_until now o)
    keyed : row.key ≡ e.key
    keeps : IsCommand e → IsCommand row

  final_row :
      (now : DateTime) (handle : Handler) (e row : CommandInboxEntry) (o : ConsumeOutcome)
      → Handling chrono config consumer command now handle e o row
      → IsFinal command.command_id o
      → matches_inbox_entry command e ≡ true
      → FinalRow now o e row
  unfolding completed_entry quarantined_entry matches_inbox_entry
  final_row now handle e row o (completes c v p) f same = record {
    terminal = refl;
    same_envelope = same;
    retained = refl;
    keyed = refl;
    keeps = (completed-Keeps now _ c).command e;
  }
  final_row now handle e row o (retries x b c) f same = absurd (ground arith)
  final_row now handle e row o (quarantines x b c) f same = record {
    terminal = refl;
    same_envelope = same;
    retained = refl;
    keyed = refl;
    keeps =
        (quarantined-Keeps (failed_end chrono config consumer command now handle e x)).command e;
  }

  over :
      (now : DateTime) (handle : Handler) (t : InMemoryOrchestrationStore) (e : CommandInboxEntry)
      → get (command_key consumer command.command_id) t.command_inbox ≡ some e
      → matches_inbox_entry command e ≡ true
      → is_command_terminal e.status ≡ true
      → consume_command chrono in_memory config consumer command now handle t
        ≡ (ok (ConsumeOutcome.duplicate command.command_id), t)
  unfolding consume_command
  over now handle t e g same done = rw (
    begin_terminal consumer command now (chrono.add now config.claim_lease_for) t e g same done,
    consume_command,
  )

  abbrev key : CommandKey
  key = command_key consumer command.command_id

  -- The row of a handled command, in a store whose inbox is well-formed.
  record Ended (now : DateTime) (o : ConsumeOutcome) (t : InMemoryOrchestrationStore) : Type 0 where
    entry : CommandInboxEntry
    row : CommandInboxEntry
    final : FinalRow now o entry row
    stored : get key t.command_inbox ≡ some row
    valid : IsInboxOf t

  handled-Ended :
      (now : DateTime) (handle : Handler) (s : InMemoryOrchestrationStore) (o : ConsumeOutcome)
      (e row : CommandInboxEntry)
      → IsInboxOf s
      → matches_inbox_entry command e ≡ true
      → (begin_command primary_writer consumer command now
          (chrono.add now config.claim_lease_for)
          s).1
        ≡ put_entry key e s
      → Handling chrono config consumer command now handle e o row
      → IsFinal command.command_id o
      → Ended now o (put_entry key row (put_entry key e s))
  handled-Ended now handle s o e row v same began handling f =
      let valid : IsInboxOf (put_entry key e s) = subst IsInboxOf began (
        begin_command-IsInbox primary_writer consumer command now
          (chrono.add now config.claim_lease_for) s v) in
      let (own, is_command) = valid.row key e (get-insert_self key e s.command_inbox) in
      let final = final_row now handle e row o handling f same in
      record {
        entry = e;
        row = row;
        final = final;
        stored = get-insert_self key row (put_entry key e s).command_inbox;
        valid =
            put_entry-IsInbox key row (put_entry key e s) (final.keyed ∙ own)
              (final.keeps is_command) valid;
      }

  consumed-Ended :
      (now : DateTime) (handle : Handler) (s t : InMemoryOrchestrationStore) (o : ConsumeOutcome)
      → IsInboxOf s
      → consume_command chrono in_memory config consumer command now handle s ≡ (ok o, t)
      → IsFinal command.command_id o
      → Ended now o t
  consumed-Ended now handle s t o v r f =
      elim (consume_command-Consumption chrono config consumer command now handle s) [
        | conflicting e g other c ↦ absurd (cc)
        | finished e g same done c ↦ absurd (ground arith)
        | waiting e at g same w c ↦ absurd (ground arith)
        | handled e before out began h ↦
            let out_eq : h.outcome ≡ o = ground (arith, h.result) in
            let t_eq : put_entry key h.row (put_entry key e s) ≡ t = ground (arith, h.result) in
            subst (Ended now o) t_eq (
              handled-Ended now handle s o e h.row v out.same_envelope began
                (subst (λ x. Handling chrono config consumer command now handle e x h.row) out_eq
                  h.handling)
                f)
      ]

  -- Once `consume_command`, on a store whose inbox is well-formed, has answered that a command is
  -- completed or quarantined, then after any further calls of the store, of which the prunes come
  -- before the retention time of that end is over, to consume the same envelope again, at whatever
  -- time and with whatever handler, reports a duplicate and changes nothing.
  pub consume_once :
      (now : DateTime) (handle : Handler) (s t : InMemoryOrchestrationStore) (o : ConsumeOutcome)
      → IsInboxOf s
      → consume_command chrono in_memory config consumer command now handle s ≡ (ok o, t)
      → IsFinal command.command_id o
      → (cs : List Call) → PrunesBefore (retained_until now o) cs
      → (later : DateTime) (again : Handler)
      → consume_command chrono in_memory config consumer command later again (run t cs)
        ≡ (ok (ConsumeOutcome.duplicate command.command_id), run t cs)
  consume_once now handle s t o v r f cs before later again =
      let ended = consumed-Ended now handle s t o v r f in
      let final = ended.final in
      over later again (run t cs) ended.row
        (finished-run (retained_until now o) key ended.row cs t ended.valid ended.stored
          final.terminal final.retained before)
        final.same_envelope final.terminal
