-- ===== src/Orchestration/Tests.antt =====
-- Runs of the store and of the retry delays at concrete inputs.
use mathlib.Core.Bool.{false≢true}
use pi_musubi_core.Prelude.{
  ℕ, ◌≡◌, refl, ◌≢◌, inl, none, some, List, [], ◌∷◌, reverse, ◌∙◌, arith, nat_eq, string_eq,
  option_eq,
}
use pi_musubi_core.Prelude.Int.{pos, ◌≤ℤ◌}
use pi_musubi_core.HashMap.{Distinct, get}
use pi_musubi_core.HashMap.Select.{keep_unless}
use pi_musubi_core.Orchestration.Model.{
  OutboxMessage, ClaimedOutboxMessage, primary_writer, CommandInboxEntry, command_key_eq,
}
use pi_musubi_core.Orchestration.Store.{InMemoryOrchestrationStore, default, command_key}
use pi_musubi_core.Orchestration.Store.Outbox.{
  claim_ready_outbox, candidate, claimed, stored_message, published_message,
}
use pi_musubi_core.Orchestration.Model.{
  DateTime, DeliveryReceipt, ProcessingFailure, QuarantineReason,
}
use pi_musubi_core.Orchestration.Store.Outbox.{
  mark_outbox_published, schedule_outbox_retry, quarantine_outbox,
}
use pi_musubi_core.Orchestration.Store.Outbox.Claim.{candidate-SameMessages, SameMessages}
use pi_musubi_core.Orchestration.Store.Outbox.Valid.{IsOutboxOf}
use pi_musubi_core.Orchestration.Store.Outbox.Lease.{lease_excludes, stale_attempt, Refuses}
use pi_musubi_core.Orchestration.Store.Inbox.Idempotent.{Begins, begin_command-Begins}
use pi_musubi_core.Orchestration.Store.Inbox.{completed_entry, new_entry}
use pi_musubi_core.Orchestration.Store.Prune.{
  prune_coordination, is_message_expired, is_entry_expired,
}
use pi_musubi_core.Orchestration.Store.Prune.Exact.{prune_exact_outbox, prune_exact_inbox}
use pi_musubi_core.Orchestration.Store.History.{Call, commit, claim, prune, step, run, IsStore}
use pi_musubi_core.Orchestration.Store.History.Run.{run-IsStore}
use pi_musubi_core.Orchestration.Store.History.Finished.{
  finished_message_stays, finished_command_stays, left_message, left_entry,
}
use pi_musubi_core.Orchestration.Policy.{retry_seconds}
use pi_musubi_core.Orchestration.Policy.Retry.{
  retry_seconds-ideal_seconds, retry_seconds_bounds, ideal_seconds,
}
use pi_musubi_core.Orchestration.Scenario.{one_message, one_message-IsStore}
use pi_musubi_core.Orchestration.Scenario.{
  program, change, message, command, attempt, receipt, completion, calls, leased, done,
  done-IsStore, other_message, two_messages, two_messages-IsStore,
}

run-IsStore_example : IsStore leased
run-IsStore_example = run-IsStore calls (tt, (tt, (tt, tt))) (omega arith)

abbrev stored : OutboxMessage
stored = stored_message message 1

abbrev done_message : OutboxMessage
done_message = published_message 110 receipt attempt (claimed "a" 40 stored)

abbrev done_command : CommandInboxEntry
done_command = completed_entry 10 110 completion (new_entry "c" command 10 40)

finished_message_stays_example :
    get 7 (step done (prune 200)).outbox_messages ≡ left_message (prune 200) done_message
unfolding program
finished_message_stays_example =
    finished_message_stays done 7 done_message refl refl (prune 200) done-IsStore

finished_command_stays_example :
    get (command_key "c" 5) (step done (prune 20)).command_inbox
    ≡ left_entry (prune 20) done_command
unfolding program
finished_command_stays_example =
    finished_command_stays done (command_key "c" 5) done_command refl refl (prune 20) done-IsStore

pruned_message : get 7 (step done (prune 200)).outbox_messages ≡ none
unfolding program
pruned_message = refl

kept_message : get 7 (step done (prune 20)).outbox_messages ≡ some done_message
unfolding program
kept_message = refl

prune_exact_outbox_example :
    get 7 (prune_coordination 200 done).1.outbox_messages
    ≡ keep_unless (is_message_expired 200) (get 7 done.outbox_messages)
prune_exact_outbox_example = prune_exact_outbox 200 done 7 done-IsStore.outbox

prune_exact_inbox_example :
    get (command_key "c" 5) (prune_coordination 200 done).1.command_inbox
    ≡ keep_unless (is_entry_expired 200) (get (command_key "c" 5) done.command_inbox)
prune_exact_inbox_example = prune_exact_inbox 200 done (command_key "c" 5) done-IsStore.inbox

abbrev taken : ClaimedOutboxMessage
taken = record {
  message = claimed "b" 70 (claimed "a" 40 stored);
  relay_name = "b";
  claimed_at = 40;
  claimed_until = 70;
}

-- The message of event 7 is leased until 40; at 20 a second message is there to take.
-- The same messages, listed the other way round.
abbrev listed_backwards : InMemoryOrchestrationStore
listed_backwards = record two_messages { outbox_messages = reverse two_messages.outbox_messages }

same_messages : SameMessages two_messages listed_backwards
unfolding program
same_messages k = ground arith

backwards-Distinct : Distinct listed_backwards.outbox_messages
unfolding program
backwards-Distinct = (refl, (refl, tt))

backwards-IsOutboxOf : IsOutboxOf listed_backwards
backwards-IsOutboxOf =
    let v = two_messages-IsStore.outbox in
    record {
      distinct = backwards-Distinct;
      row = λ k m g. v.row k m (same_messages k ∙ g);
      one_key = λ j k m n g h. v.one_key j k m n (same_messages j ∙ g) (same_messages k ∙ h);
      one_order = λ j k m n g h. v.one_order j k m n (same_messages j ∙ g) (same_messages k ∙ h);
    }

candidate-SameMessages_example : candidate 10 two_messages ≡ candidate 10 listed_backwards
unfolding program
candidate-SameMessages_example =
    candidate-SameMessages 10 two_messages listed_backwards two_messages-IsStore.outbox
      backwards-IsOutboxOf (omega arith) same_messages

abbrev two_calls : List Call
two_calls =
    commit primary_writer change message
    ∷ claim primary_writer "a" 10 40
    ∷ commit primary_writer change other_message
    ∷ []

abbrev two : InMemoryOrchestrationStore
two = run default two_calls

two-IsStore : IsStore two
two-IsStore = run-IsStore two_calls (tt, (tt, (tt, tt))) (omega arith)

abbrev taken_other : ClaimedOutboxMessage
taken_other = record {
  message = claimed "b" 50 (stored_message other_message 2);
  relay_name = "b";
  claimed_at = 20;
  claimed_until = 50;
}

lease_excludes_example : ◌≢◌ {A = ℕ} taken_other.message.event_id 7
unfolding program
lease_excludes_example =
    lease_excludes "b" 20 50 two (claim_ready_outbox primary_writer "b" 20 50 two).1 taken_other 7
      (claimed "a" 40 stored) 40 two-IsStore.outbox refl refl (omega arith) refl

abbrev taken_by_a : ClaimedOutboxMessage
taken_by_a = record {
  message = claimed "a" 40 stored;
  relay_name = "a";
  claimed_at = 10;
  claimed_until = 40;
}

abbrev leased_by_a : InMemoryOrchestrationStore
leased_by_a = (claim_ready_outbox primary_writer "a" 10 40 one_message).1

stale_attempt_example :
    ((retain_until : DateTime) (receipt : DeliveryReceipt)
      → Refuses 7 leased_by_a
          (mark_outbox_published 7 retain_until receipt (record attempt { relay_name = "b" })))
    × ((retry_at : DateTime) (failure : ProcessingFailure)
        → Refuses 7 leased_by_a
            (schedule_outbox_retry 7 retry_at failure (record attempt { relay_name = "b" })))
    × ((at retain_until : DateTime) (reason : QuarantineReason) (failure : ProcessingFailure)
        → Refuses 7 leased_by_a (
            quarantine_outbox 7 at retain_until reason failure
              (record attempt { relay_name = "b" })))
unfolding program
stale_attempt_example =
    stale_attempt "a" 10 40 one_message leased_by_a taken_by_a one_message-IsStore.outbox refl
      (record attempt { relay_name = "b" })
      (inl (λ p. false≢true ((string_eq.decides "b" "a").1 p)))

begin_command-Begins_example : Begins "c" command 20 50 leased
begin_command-Begins_example = begin_command-Begins "c" command 20 50 leased

retry_seconds-ideal_seconds_example :
    retry_seconds (pos 5) (pos 60) (pos 7) 9 3 ≡ pos (ideal_seconds 5 60 7 9 3)
retry_seconds-ideal_seconds_example =
    retry_seconds-ideal_seconds 5 60 7 9 3 (omega arith) (omega arith)

third_delay : retry_seconds (pos 5) (pos 60) (pos 7) 9 3 ≡ pos 21
unfolding retry_seconds
third_delay = refl

retry_seconds_bounds_example :
    (pos 0 ≤ℤ retry_seconds (pos 5) (pos 60) (pos 7) 9 3)
    × (retry_seconds (pos 5) (pos 60) (pos 7) 9 3 ≤ℤ retry_seconds (pos 5) (pos 60) (pos 7) 9 4)
    × (retry_seconds (pos 5) (pos 60) (pos 7) 9 4 ≤ℤ pos 60)
retry_seconds_bounds_example =
    retry_seconds_bounds 5 60 7 9 3 4 (omega arith) (omega arith) (omega arith)
