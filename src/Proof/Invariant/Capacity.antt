-- ===== src/Proof/Invariant/Capacity.antt =====
-- apps/backend/src/services/proof.rs: the limits on the active challenges, in every run whose times
-- do not go back.
use pi_musubi_core.Prelude.{ℕ, ◌≤◌, ◌<◌, ◌≡◌, false, leb, arith, nat_eq, list_eq}
use pi_musubi_core.HashMap.{values}
use pi_musubi_core.Proof.State.{Str, Instant, Crates, ProofState, with_server_secret}
use pi_musubi_core.Proof.Messages.{StartProofChallengeInput, ProofEnvelopeInput}
use pi_musubi_core.Proof.Challenge.{active_challenge_count, active_challenge_count_for_subject}
use pi_musubi_core.Proof.Start.{StartIds, issued_challenge, start_proof_challenge}
use pi_musubi_core.Proof.Start.Shape.{start_shape}
use pi_musubi_core.Proof.Start.Capacity.{
  HasRoom, counted, without-HasRoom, prune-HasRoom, insert-HasRoom, Change-HasRoom,
}
use pi_musubi_core.Proof.Submit.{
  SubmitIds, submit_proof_envelope_at, record_submission, record_verification,
}
use pi_musubi_core.Proof.Submit.Steps.{submit-keeps}

-- Calls whose times do not go back, with the time of the last one.
pub data TimedRun (crates : Crates) (s : ProofState) : Instant → ProofState → Type 0 where
  begin : (at : Instant) → TimedRun crates s at s
  started :
      {at : Instant} {t : ProofState} (input : StartProofChallengeInput) (ids : StartIds)
      (now : Instant)
      → TimedRun crates s at t
      → at ≤ now
      → TimedRun crates s now (start_proof_challenge crates input ids now t).0
  submitted :
      {at : Instant} {t : ProofState} (input : ProofEnvelopeInput) (ids : SubmitIds) (now : Instant)
      → TimedRun crates s at t
      → at ≤ now
      → TimedRun crates s now (submit_proof_envelope_at crates input ids now t).0

later-HasRoom :
    {at now : Instant} (s : ProofState)
    → at ≤ now
    → HasRoom at s.venue_challenges_by_id
    → HasRoom now s.venue_challenges_by_id
later-HasRoom s le h = record {
  of_subject = λ x t k. h.of_subject x t (omega (arith, le, k));
  in_all = λ t k. h.in_all t (omega (arith, le, k));
}

below : (n k : ℕ) → leb k n ≡ false → n < k
below n k h = ground arith

empty_room :
    (secret : Str) (now : Instant) → HasRoom now (with_server_secret secret).venue_challenges_by_id
unfolding with_server_secret counted values
empty_room secret now = record { of_subject = λ x t le. omega arith; in_all = λ t le. omega arith }

start-HasRoom :
    (crates : Crates) (input : StartProofChallengeInput) (ids : StartIds) (now : Instant)
    (s : ProofState)
    → HasRoom now s.venue_challenges_by_id
    → HasRoom now (start_proof_challenge crates input ids now s).0.venue_challenges_by_id
unfolding active_challenge_count_for_subject active_challenge_count counted issued_challenge
start-HasRoom crates input ids now s h =
    let pruned = prune-HasRoom crates now now s h in
    start_shape crates ids now (HasRoom now) input s h pruned (λ request version pin few room.
      without-HasRoom now _ _ (
        insert-HasRoom now ids.challenge_id (issued_challenge crates request ids now version pin) _
          pruned (below _ _ few) (below _ _ room)))

submit-HasRoom :
    (crates : Crates) (input : ProofEnvelopeInput) (ids : SubmitIds) (now : Instant)
    (s : ProofState)
    → HasRoom now s.venue_challenges_by_id
    → HasRoom now (submit_proof_envelope_at crates input ids now s).0.venue_challenges_by_id
unfolding record_submission record_verification
submit-HasRoom crates input ids now s =
    submit-keeps crates input ids now (λ t. HasRoom now t.venue_challenges_by_id)
      (λ t. prune-HasRoom crates now now t)
      (λ t id c c' g change h. Change-HasRoom now id c c' t.venue_challenges_by_id g change h)
      (λ t d h. h) (λ t d flags h. h) s

TimedRun-HasRoom :
    (crates : Crates) {s t : ProofState} {at : Instant}
    → TimedRun crates s at t
    → ((now : Instant) → HasRoom now s.venue_challenges_by_id)
    → HasRoom at t.venue_challenges_by_id
TimedRun-HasRoom crates (begin at) h = h at
TimedRun-HasRoom crates (started {t} input ids now run le) h =
    start-HasRoom crates input ids now t (later-HasRoom t le (TimedRun-HasRoom crates run h))
TimedRun-HasRoom crates (submitted {t} input ids now run le) h =
    submit-HasRoom crates input ids now t (later-HasRoom t le (TimedRun-HasRoom crates run h))

-- After starts and submissions whose times do not go back, at the last call and at every later
-- instant, each subject has at most four active challenges and there are at most 1024 of them.
pub run_within_limits :
    (crates : Crates) (secret : Str) {t : ProofState} {at : Instant}
    → TimedRun crates (with_server_secret secret) at t
    → (x : Str) (now : Instant) → at ≤ now
    → (active_challenge_count_for_subject t x now ≤ 4) × (active_challenge_count t now ≤ 1024)
unfolding active_challenge_count_for_subject active_challenge_count counted
run_within_limits crates secret run x now le =
    let room = TimedRun-HasRoom crates run (empty_room secret) in
    (room.of_subject x now le, room.in_all now le)
