-- ===== src/Proof/Tests.antt =====
-- apps/backend/src/services/proof.rs: the service on concrete calls, and the witnesses.
use pi_musubi_core.Prelude.{
  ◌≤◌, ◌≡◌, ◌↔◌, inr, refl, subst, arith, Bool, true, false, Option, none, some, [], ◌∷◌, ◌==◌,
  nat_eq, list_eq, string_eq, length,
}
use pi_musubi_core.Prelude.Int.{pos, ◌-ℤ◌}
use pi_musubi_core.Prelude.Text.{codes, trim}
use pi_musubi_core.HashMap.{HashMap, get}
use pi_musubi_core.Proof.State.{
  Str, ProofSubmissionRecord, VenueChallengeRecord, with_server_secret,
}
use pi_musubi_core.Proof.Messages.{none_mode}
use pi_musubi_core.Proof.State.{Instant, ProofState}
use pi_musubi_core.Proof.Messages.{ProofEnvelopeInput}
use pi_musubi_core.Proof.Submit.{SubmitIds}
use pi_musubi_core.Proof.Keys.{first_key}
use pi_musubi_core.Proof.Start.{issued_challenge, start_proof_challenge}
use pi_musubi_core.Proof.Attempt.{is_verified}
use pi_musubi_core.Proof.Submit.{submit_proof_envelope_at}
use pi_musubi_core.Proof.Verify.Chain.{verify_envelope}
use pi_musubi_core.Proof.Verify.Accept.{Redeems, verify_envelope-Accepts}
use pi_musubi_core.Proof.Texts.{sanitize_coarse_location_bucket}
use pi_musubi_core.Proof.Texts.Bucket.{sanitize_coarse_location_bucket-IsBucket}
use pi_musubi_core.Proof.Digest.Injective.{encode_parts_injective}
use pi_musubi_core.Proof.Challenge.{
  active_challenge_count, active_challenge_count_for_subject, challenge_status_quarantined,
}
use pi_musubi_core.Proof.Prune.{prune_ephemeral_proof_state}
use pi_musubi_core.Proof.Prune.Active.{prune_keeps_active}
use pi_musubi_core.Proof.Challenge.{is_challenge_active}
use pi_musubi_core.Proof.Prune.Challenges.{Each}
use pi_musubi_core.Proof.Invariant.Records.{repeated_envelope, few_submissions}
use pi_musubi_core.Proof.Invariant.Capacity.{TimedRun, run_within_limits}
use pi_musubi_core.Proof.Invariant.Redeemable.{issued_redeemable}
use pi_musubi_core.Proof.Verify.Presence.{KeyAdmits}
use pi_musubi_core.Proof.Verify.{risk_requires_quarantine, verified}
use pi_musubi_core.Proof.Texts.{trimmed_optional, parse_submission_fallback_mode}
use pi_musubi_core.Proof.Submit.{submission_flags, submission_record}
use pi_musubi_core.Proof.Keys.{display_code_valid_for_key}
use pi_musubi_core.Proof.Start.{start_request, start_outcome}
use pi_musubi_core.Proof.Invariant.Handed.{PinRun, handed_to}
use pi_musubi_core.Proof.Invariant.Handed.Limit.{pins_within_limit}
use pi_musubi_core.Proof.Start.Pins.{handed, delivered}
use pi_musubi_core.Proof.Sort.Passing.{passing, passing_le}
use pi_musubi_core.Proof.Messages.{
  StartProofChallengeInput, StartProofChallengeServiceOutcome, OperatorPinDelivery, ProofError,
}
use pi_musubi_core.Prelude.{Result, ok, err}
use pi_musubi_core.Proof.Texts.Parts.{IsBucket}
use pi_musubi_core.Proof.Texts.{lower}
use pi_musubi_core.Proof.Invariant.{Run, here, started, submitted, IsProofState}
use pi_musubi_core.Proof.Invariant.Once.{
  Anything, Run-IsProofState, redeemed_once, IsClosed, ClosedAt, closed_never_accepted,
}
use pi_musubi_core.Proof.Scenario.{
  seconds, visit, first_ids, issued, shown_code, envelope, submit_ids, nothing, first_submission,
  second_submission, redeemed, after_one, after_two, after_three, first_request, first_challenge,
  cafe_key,
}

-- The code of a venue, in the case that the guest likes.
shown : shown_code ≡ codes "3DD1B4"
unfolding shown_code
shown = refl

accepted_at_once :
    (submit_proof_envelope_at seconds (envelope shown_code) first_submission 120 issued).1.accepted
    ≡ true
unfolding issued shown_code submit_proof_envelope_at trim ◌-ℤ◌ with_server_secret
accepted_at_once = refl

issued-Run : Run seconds Anything (with_server_secret (codes "s")) issued
unfolding issued with_server_secret
issued-Run = started visit first_ids 100 here tt

verify_envelope-Accepts_example :
    (is_verified
        (verify_envelope seconds (envelope shown_code) 120 [] issued none_mode nothing).1.decision
      ≡ true)
    ↔ ((nothing ≡ none) × Redeems seconds (envelope shown_code) 120 [] issued none_mode)
verify_envelope-Accepts_example =
    verify_envelope-Accepts seconds (envelope shown_code) 120 [] issued none_mode nothing

Run-IsProofState_example : IsProofState issued
Run-IsProofState_example = Run-IsProofState seconds (codes "s") issued-Run

redeemed_once_example :
    (submit_proof_envelope_at seconds
      (envelope shown_code)
      second_submission
      130
      redeemed).1.accepted
    ≡ false
unfolding trimmed_optional redeemed trim
redeemed_once_example =
    redeemed_once seconds (codes "c1") issued redeemed (envelope shown_code) first_submission 120
      (Run-IsProofState seconds (codes "s") issued-Run) accepted_at_once refl here
      (envelope shown_code) second_submission 130 refl

third_outcome :
    (submit_proof_envelope_at seconds
      (envelope (codes "AAAAA3"))
      (submit_ids (codes "s3"))
      122
      after_two).1.reason_code
    ≡ some "attempt_limit_exceeded"
unfolding after_two after_one issued submit_proof_envelope_at trim ◌-ℤ◌ with_server_secret
third_outcome = refl

three_failures : Run seconds Anything (with_server_secret (codes "s")) after_three
unfolding after_three after_two after_one
three_failures = submitted (envelope (codes "AAAAA3")) (submit_ids (codes "s3")) 122 (
    submitted (envelope (codes "AAAAA2")) (submit_ids (codes "s2")) 121
      (submitted (envelope (codes "AAAAA1")) (submit_ids (codes "s1")) 120 issued-Run))

abbrev is_quarantined : Option VenueChallengeRecord → Bool
is_quarantined none = false
is_quarantined (some c) = c.status == challenge_status_quarantined

quarantined-IsClosed :
    (j : Str) (m : HashMap Str VenueChallengeRecord)
    → is_quarantined (get j m) ≡ true
    → (id : Str) (c : VenueChallengeRecord) → get id m ≡ some c
    → id ≡ j
    → IsClosed c
quarantined-IsClosed j m h id c g e =
    inr (subst (λ o. is_quarantined o ≡ true) (subst (λ k. get k m ≡ some c) e g) h)

after_three-ClosedAt : Each (ClosedAt (codes "c1")) after_three
unfolding after_three after_two after_one issued submit_proof_envelope_at trim ◌-ℤ◌
    with_server_secret get
after_three-ClosedAt = quarantined-IsClosed (codes "c1") after_three.venue_challenges_by_id refl

-- The right code comes too late.
abbrev one_more : ProofState
one_more =
    (submit_proof_envelope_at seconds (envelope shown_code) second_submission 130 after_three).0

closed_never_accepted_example :
    Each (ClosedAt (codes "c1")) one_more
    × ((input : ProofEnvelopeInput) (ids : SubmitIds) (now : Instant)
        → trimmed_optional input.challenge_id ≡ some (codes "c1")
        → (submit_proof_envelope_at seconds input ids now one_more).1.accepted ≡ false)
closed_never_accepted_example =
    closed_never_accepted seconds (codes "c1") after_three one_more
      (Run-IsProofState seconds (codes "s") three_failures) after_three-ClosedAt
      (submitted (envelope shown_code) second_submission 130 here)

run_within_limits_example :
    (active_challenge_count_for_subject redeemed (codes "alice") 125 ≤ 4)
    × (active_challenge_count redeemed 125 ≤ 1024)
unfolding redeemed issued
run_within_limits_example =
    run_within_limits seconds (codes "s")
      (TimedRun.submitted (envelope shown_code) first_submission 120
        (TimedRun.started visit first_ids 100 (TimedRun.begin 0) (omega arith)) (omega arith))
      (codes "alice") 125 (omega arith)

-- A visit with an operator's PIN.
abbrev pin_visit : StartProofChallengeInput
pin_visit = record visit { fallback_mode = codes "operator_pin"; operator_id = some (codes "op") }

abbrev answer : Result ProofError StartProofChallengeServiceOutcome
answer = (start_proof_challenge seconds pin_visit first_ids 100 (with_server_secret (codes "s"))).1

one_at_most : (r : Result ProofError StartProofChallengeServiceOutcome) → length (handed 100 r) ≤ 1
one_at_most (err e) = omega arith
one_at_most (ok outcome) = few outcome.operator_delivery
  where
    few : (d : Option OperatorPinDelivery) → length (delivered 100 d) ≤ 1
    few none = omega arith
    few (some d) = omega arith

pins_within_limit_example :
    handed_to seconds (codes "town") (codes "cafe") (codes "op") 130 (handed 100 answer) ≤ 3
pins_within_limit_example =
    pins_within_limit seconds (codes "s") (λ u v h. omega (arith, h))
      (PinRun.started pin_visit first_ids 100 (PinRun.begin 90) (omega arith))
      (λ now. omega (arith, passing_le _ (handed 100 answer), one_at_most answer)) (codes "town")
      (codes "cafe") (codes "op") 130

one_handed :
    handed_to seconds (codes "town") (codes "cafe") (codes "op") 130 (handed 100 answer) ≡ 1
unfolding start_proof_challenge start_request trim with_server_secret ◌-ℤ◌ passing
one_handed = refl

encode_parts_injective_example : (codes "a:" ∷ codes "b" ∷ []) ≡ (codes "a:" ∷ codes "b" ∷ [])
encode_parts_injective_example =
    encode_parts_injective (codes "a:" ∷ codes "b" ∷ []) (codes "a:" ∷ codes "b" ∷ [])
      (ground arith) (ground arith) refl

abbrev west : Option Str
west = some (codes " Shibuya-West ")

sanitize_coarse_location_bucket-IsBucket_example :
    ((b : Str)
      → ((sanitize_coarse_location_bucket west).stored_bucket ≡ some b)
        ↔ ((v : Str) × (trimmed_optional west ≡ some v) × (lower v ≡ b) × IsBucket b))
    × (((sanitize_coarse_location_bucket west).invalid ≡ true)
        ↔ ((v : Str) × (trimmed_optional west ≡ some v) × ¬ (IsBucket (lower v))))
sanitize_coarse_location_bucket-IsBucket_example = sanitize_coarse_location_bucket-IsBucket west

west_stored :
    sanitize_coarse_location_bucket west
    ≡ record { stored_bucket = some (codes "shibuya-west"); invalid = false }
unfolding sanitize_coarse_location_bucket trim
west_stored = refl

redeemed-Run : Run seconds Anything (with_server_secret (codes "s")) redeemed
unfolding redeemed
redeemed-Run = submitted (envelope shown_code) first_submission 120 issued-Run

abbrev first_record : ProofSubmissionRecord
first_record =
    submission_record seconds (envelope shown_code) first_submission 120 (codes "s") verified

repeated_envelope_example :
    ((submit_proof_envelope_at seconds
        (envelope shown_code)
        second_submission
        121
        redeemed).1.accepted
      ≡ false)
    × ((submit_proof_envelope_at seconds
          (envelope shown_code)
          second_submission
          121
          redeemed).1.reason_code
        ≡ some "replay")
    × ((submit_proof_envelope_at seconds
          (envelope shown_code)
          second_submission
          121
          redeemed).1.next_action
        ≡ some "retry_proof")
    × ((submit_proof_envelope_at seconds
          (envelope shown_code)
          second_submission
          121
          redeemed).0.venue_challenges_by_id
        ≡ (prune_ephemeral_proof_state seconds
            (prune_ephemeral_proof_state seconds redeemed 121)
            121).venue_challenges_by_id)
unfolding redeemed issued shown_code submit_proof_envelope_at trim ◌-ℤ◌ with_server_secret
repeated_envelope_example =
    repeated_envelope seconds (codes "s") redeemed-Run (envelope shown_code) second_submission 121
      (codes "s1") first_record none_mode refl refl refl

few_submissions_example : length redeemed.proof_submissions_by_id ≤ 1024
few_submissions_example = few_submissions seconds (codes "s") redeemed-Run

prune_keeps_active_example :
    get (codes "c1") (prune_ephemeral_proof_state seconds issued 150).venue_challenges_by_id
    ≡ some first_challenge
unfolding issued start_proof_challenge trim with_server_secret is_challenge_active issued_challenge
    get
prune_keeps_active_example =
    prune_keeps_active seconds issued 150 (codes "c1") first_challenge
      (Run-IsProofState seconds (codes "s") issued-Run).keyed.distinct_challenges (omega arith) refl
      refl

cafe_key-KeyAdmits :
    KeyAdmits seconds
      (envelope shown_code)
      120
      (submission_flags seconds (envelope shown_code) first_submission 120)
      cafe_key
      shown_code
unfolding shown_code first_key display_code_valid_for_key trim
cafe_key-KeyAdmits = record { usable = refl; begun = omega arith; not_ended = refl; code = refl }

issued_redeemable_example :
    (submit_proof_envelope_at seconds (envelope shown_code) first_submission 120 issued).1.accepted
    ≡ true
unfolding issued start_proof_challenge with_server_secret trim trimmed_optional shown_code
    parse_submission_fallback_mode submission_flags risk_requires_quarantine
    prune_ephemeral_proof_state get start_request ◌-ℤ◌
issued_redeemable_example =
    issued_redeemable seconds (envelope shown_code) first_submission 120 visit first_ids 100
      (with_server_secret (codes "s")) first_request
      (start_outcome seconds first_request first_ids 100 (pos 1) none) cafe_key shown_code
      (Run-IsProofState seconds (codes "s") here).keyed refl refl (omega arith) (omega arith)
      (omega arith) (omega arith) refl refl refl refl refl refl refl refl refl cafe_key-KeyAdmits
      refl
