-- ===== src/Orchestration/Runtime/Tests.antt =====
-- Runs of the runtime over the store in memory at concrete inputs.
use pi_musubi_core.Prelude.{
  ℕ, ◌+◌, ◌≤◌, ◌≡◌, refl, ◌⊎◌, inl, true, false, some, List, [], ◌∷◌, Result, ok, err, arith,
  nat_eq, string_eq, option_eq,
}
use pi_musubi_core.HashMap.{get}
use pi_musubi_core.Orchestration.Model.{
  Uuid, DateTime, OutboxMessage, quarantined, ClaimedOutboxMessage, DeliveryReceipt,
  ProcessingFailure, transient_failure, CommandEnvelope, CommandCompletion, ConsumeOutcome,
  command_key_eq, DeliveryOutcome, idle,
}
use pi_musubi_core.Orchestration.Store.{InMemoryOrchestrationStore, u32_succ}
use pi_musubi_core.Orchestration.Store.Outbox.{is_ready, key_lt, stored_message}
use pi_musubi_core.Orchestration.Model.{primary_writer}
use pi_musubi_core.Orchestration.Store.History.{Call, begin, prune, run}
use pi_musubi_core.Orchestration.Runtime.Interface.{in_memory}
use pi_musubi_core.Orchestration.Runtime.{deliver_ready_outbox, consume_command}
use pi_musubi_core.Orchestration.Runtime.Deliver.{Delivers, deliver_ready_outbox-Delivers}
use pi_musubi_core.Orchestration.Runtime.Consume.{Consumption, consume_command-Consumption}
use pi_musubi_core.Orchestration.Runtime.Once.{consume_once}
use pi_musubi_core.HashMap.Count.{count}
use pi_musubi_core.Orchestration.Policy.{next_retry_at}
use pi_musubi_core.Orchestration.Policy.Retry.{retry_seconds_pos, retry_seconds-ideal_seconds}
use pi_musubi_core.Orchestration.Runtime.Rounds.{
  Spaced, IsWaiting, KeepsFailing, rounds, failing_message_ends,
}
use pi_musubi_core.Orchestration.Runtime.Drain.{
  Waits, Drained, deliveries, ready_count, deliveries-Drained,
}
use pi_musubi_core.Orchestration.Scenario.{
  program, clock, config, message, command, completion, one_message, one_message-IsStore,
  two_messages, two_messages-IsStore,
}

abbrev times_out : ClaimedOutboxMessage → Result ProcessingFailure DeliveryReceipt
times_out _ = err (transient_failure "timeout" "no answer")

abbrev succeeds : CommandEnvelope → Result ProcessingFailure CommandCompletion
succeeds _ = ok completion

deliver_ready_outbox-Delivers_example :
    ((deliver_ready_outbox clock in_memory config "a" 10 times_out one_message
        ≡ (ok idle, one_message))
      × ((k : Uuid) (n : OutboxMessage)
          → get k one_message.outbox_messages ≡ some n
          → is_ready 10 n ≡ false))
    ⊎ ((m : OutboxMessage) × (get m.event_id one_message.outbox_messages ≡ some m)
        × (is_ready 10 m ≡ true)
        × ((k : Uuid) (n : OutboxMessage)
            → get k one_message.outbox_messages ≡ some n
            → is_ready 10 n ≡ true
            → key_lt n m ≡ false)
        × Delivers clock config "a" 10 times_out one_message m
            (deliver_ready_outbox clock in_memory config "a" 10 times_out one_message))
deliver_ready_outbox-Delivers_example =
    deliver_ready_outbox-Delivers clock config "a" 10 times_out one_message
      one_message-IsStore.outbox

delivery_retried :
    (deliver_ready_outbox clock in_memory config "a" 10 times_out one_message).0
    ≡ ok (DeliveryOutcome.retry_scheduled 7 15)
unfolding program transient_failure
delivery_retried = refl

consume_command-Consumption_example :
    Consumption clock config "c" command 10 succeeds one_message
      (consume_command clock in_memory config "c" command 10 succeeds one_message)
consume_command-Consumption_example =
    consume_command-Consumption clock config "c" command 10 succeeds one_message

abbrev consumed : InMemoryOrchestrationStore
consumed = (consume_command clock in_memory config "c" command 10 succeeds one_message).1

-- The row is retained until 110: a prune at 100 leaves it.
abbrev calls_after : List Call
calls_after = prune 100 ∷ begin primary_writer "c" command 100 130 ∷ []

consume_once_example :
    consume_command clock in_memory config "c" command 500 succeeds (run consumed calls_after)
    ≡ (ok (ConsumeOutcome.duplicate 5), run consumed calls_after)
unfolding program
consume_once_example =
    consume_once clock config "c" command 10 succeeds one_message consumed
      (ConsumeOutcome.completed 5) one_message-IsStore.inbox refl (inl refl) calls_after
      (omega arith) 500 succeeds

-- A prune at 110 takes it away, and the command is handled again.
handled_again :
    (consume_command clock in_memory config "c" command 500 succeeds
      (run consumed (prune 110 ∷ []))).0
    ≡ ok (ConsumeOutcome.completed 5)
unfolding program
handled_again = refl

-- Every retry of the scenario waits, and not longer than a minute.
waits : (t : DateTime) → Waits clock config "a" t times_out
unfolding next_retry_at
waits t m = omega (
  arith,
  retry_seconds_pos 5 60 0 m.event_id (u32_succ m.attempt_count) (omega arith) (omega arith)
      (omega arith) (omega arith),
)

within_minute :
    (t : DateTime) (id : Uuid) (n : ℕ) → next_retry_at clock config.retry_policy t id n ≤ t + 60
unfolding next_retry_at
within_minute t id n =
    rw (retry_seconds-ideal_seconds 5 60 0 id n (omega arith) (omega arith)) (omega arith)

deliveries-Drained_example : Drained clock config "a" 10 times_out two_messages (
    deliveries clock config "a" 10 times_out
      (ready_count clock config "a" 10 times_out two_messages)
      two_messages)
deliveries-Drained_example =
    deliveries-Drained clock config "a" 10 times_out (waits 10) two_messages
      two_messages-IsStore.outbox

-- Two messages are ready, and two deliveries put both of them back.
both_ready : ready_count clock config "a" 10 times_out two_messages ≡ 2
unfolding program count
both_ready = refl

abbrev three_rounds : List DateTime
three_rounds = 10 ∷ 80 ∷ 150 ∷ []

three_rounds-Spaced : Spaced clock config "a" times_out three_rounds
three_rounds-Spaced = (
  waits 10,
  (
    (λ id n. omega (arith, within_minute 10 id n)),
    ((λ id n. omega (arith, within_minute 10 id n)), tt),
  ),
  (waits 80, ((λ id n. omega (arith, within_minute 80 id n)), tt), (waits 150, tt, tt)),
)

first_waits : IsWaiting clock config "a" times_out 7 (stored_message message 1)
unfolding stored_message
first_waits = record {
  keyed = refl;
  status = refl;
  unclaimed = refl;
  supported = refl;
  attempts_left = omega arith;
}

times_out-KeepsFailing : KeepsFailing clock config "a" times_out 7
unfolding transient_failure
times_out-KeepsFailing c own = (transient_failure "timeout" "no answer", refl, refl)

failing_message_ends_example :
    (row : OutboxMessage) × (get 7
        (rounds clock config "a" times_out three_rounds two_messages).outbox_messages
      ≡ some row)
    × (row.delivery_status ≡ quarantined)
unfolding program stored_message
failing_message_ends_example =
    failing_message_ends clock config "a" times_out three_rounds two_messages 7
      (stored_message message 1) two_messages-IsStore.outbox three_rounds-Spaced refl first_waits
      (omega arith) times_out-KeepsFailing (omega arith) (omega arith)
