-- ===== src/Orchestration/Store/History/Run.antt =====
-- apps/backend/crates/orchestration/src/store.rs: the invariant after any sequence of calls.
use pi_musubi_core.Prelude.{
  ◌+◌, ◌^◌, ◌≤◌, ◌<◌, ◌≡◌, refl, List, [], ◌∷◌, arith, nat_eq, length, All,
}
use native.Mathlib.Nat.{le-add_right}
use pi_musubi_core.HashMap.{get}
use pi_musubi_core.Orchestration.Model.{Uuid, DateTime, CommandKey, command_key_eq}
use pi_musubi_core.Orchestration.Store.{InMemoryOrchestrationStore, default}
use pi_musubi_core.Orchestration.Store.Outbox.{
  committed, mark_outbox_published, schedule_outbox_retry, quarantine_outbox,
}
use pi_musubi_core.Orchestration.Store.Outbox.Cases.{commit_cases, claim_cases, end_cases}
use pi_musubi_core.Orchestration.Store.Inbox.{
  complete_command, schedule_command_retry, quarantine_command,
}
use pi_musubi_core.Orchestration.Store.Inbox.Cases.{begin_cases, end_command_cases}
use pi_musubi_core.Orchestration.Store.Prune.{
  archive_message, archive_entry, archive_messages, archive_entries, prune_coordination,
}
use pi_musubi_core.Orchestration.Store.History.{
  Call, commit, claim, publish, retry, quarantine, begin, complete, retry_command,
  quarantine_of_command, prune, OwnReport, step, run, IsStore, step-IsStore,
}

archive_messages-next :
    (now : DateTime) (ks : List Uuid) (s : InMemoryOrchestrationStore)
    → (archive_messages now ks s).next_causal_order ≡ s.next_causal_order
unfolding archive_messages archive_message
archive_messages-next now [] s = refl
archive_messages-next now (k ∷ ks) s =
    ground (arith, archive_messages-next now ks (archive_message now k s))

archive_entries-next :
    (now : DateTime) (ks : List CommandKey) (s : InMemoryOrchestrationStore)
    → (archive_entries now ks s).next_causal_order ≡ s.next_causal_order
unfolding archive_entries archive_entry
archive_entries-next now [] s = refl
archive_entries-next now (k ∷ ks) s =
    ground (arith, archive_entries-next now ks (archive_entry now k s))

module _ (s : InMemoryOrchestrationStore) where
  abbrev Bounded : InMemoryOrchestrationStore → Type 0
  Bounded t = t.next_causal_order ≤ s.next_causal_order + 1

  same : Bounded s
  same = le-add_right s.next_causal_order 1

  -- A call numbers at most one message.
  step-next : (c : Call) → Bounded (step s c)
  unfolding step mark_outbox_published schedule_outbox_retry quarantine_outbox complete_command
      schedule_command_retry quarantine_command committed prune_coordination
  step-next (commit source change message) =
      commit_cases Bounded s source change message same (λ _ _. omega arith)
  step-next (claim source relay now until) =
      claim_cases Bounded s source relay now until same (λ _ _ _ _. same)
  step-next (publish k retain receipt a) = end_cases Bounded s k a _ same (λ _ _ _. same)
  step-next (retry k at f a) = end_cases Bounded s k a _ same (λ _ _ _. same)
  step-next (quarantine k at retain q f a) = end_cases Bounded s k a _ same (λ _ _ _. same)
  step-next (begin source consumer c now until) =
      begin_cases Bounded s source consumer c now until same (λ _. same) (λ _ _ _. same)
  step-next (complete consumer id expected at retain c) =
      end_command_cases Bounded s consumer id expected _ same (λ _ _ _. same)
  step-next (retry_command consumer id expected at f) =
      end_command_cases Bounded s consumer id expected _ same (λ _ _ _. same)
  step-next (quarantine_of_command consumer id expected q) =
      end_command_cases Bounded s consumer id expected _ same (λ _ _ _. same)
  step-next (prune now) =
      omega (
        arith,
        archive_entries-next now _ (archive_messages now _ s),
        archive_messages-next now _ s,
      )

pub default-IsStore : IsStore default
unfolding get
default-IsStore = record {
  outbox = record {
    distinct = tt;
    row = λ k m h. absurd (cc);
    one_key = λ i j x y gi gj e. absurd (cc);
    one_order = λ i j x y gi gj e. absurd (cc);
  };
  logged = λ k. refl;
  inbox = record { distinct = tt; row = λ k m h. absurd (cc) };
}

run_from-IsStore :
    (s : InMemoryOrchestrationStore) (cs : List Call)
    → All OwnReport cs
    → s.next_causal_order + length cs < 2 ^ 63
    → IsStore s
    → IsStore (run s cs)
unfolding run
run_from-IsStore s [] own room v = v
run_from-IsStore s (c ∷ cs) own room v =
    run_from-IsStore (step s c) cs own.1 (omega (arith, step-next s c))
      (step-IsStore s c own.0 (omega arith) v)

-- After any calls on an empty store, fewer than 2^63 of them, of which each report names the event
-- of its attempt, the invariant of the store holds.
pub run-IsStore :
    (cs : List Call) → All OwnReport cs → length cs < 2 ^ 63 → IsStore (run default cs)
run-IsStore cs own few = run_from-IsStore default cs own (omega arith) default-IsStore
