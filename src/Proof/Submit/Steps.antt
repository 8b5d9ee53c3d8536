-- ===== src/Proof/Submit/Steps.antt =====
-- apps/backend/src/services/proof.rs: what `submit_proof_envelope_at` keeps of every challenge.
use pi_musubi_core.Prelude.{
  leb, ◌≡◌, refl, sym, ◌∙◌, subst, String, Bool, true, false, not, ◌&&◌, Option, none, some, List,
  arith, inl, inr, Bool-cases, if_cases, clash, some_injective, ◌==◌, nat_eq, list_eq, string_eq,
}
use pi_musubi_core.Prelude.Text.{trim, is_empty}
use pi_musubi_core.HashMap.{get}
use pi_musubi_core.Proof.State.{Str, Instant, Crates, ProofState, VenueChallengeRecord}
use pi_musubi_core.Proof.Messages.{ProofEnvelopeInput, SubmissionFallbackMode}
use pi_musubi_core.Proof.Texts.{trimmed_optional, filled, parse_submission_fallback_mode}
use pi_musubi_core.Proof.Digest.{replay_key}
use pi_musubi_core.Proof.Challenge.{challenge_status_issued, max_challenge_failed_attempts}
use pi_musubi_core.Proof.Verify.{VerificationResult, VerificationDecision, rejected, no_charge}
use pi_musubi_core.Proof.Verify.Chain.{expire, put_challenge}
use pi_musubi_core.Proof.Verify.Accept.{Redeems, verify_envelope-Accepts}
use pi_musubi_core.Proof.Prune.{prune_ephemeral_proof_state}
use pi_musubi_core.Proof.Attempt.{
  is_verified, charged, consume, record_failed_attempt, consume_challenge,
}
use pi_musubi_core.Proof.Submit.{
  SubmitIds, submission_flags, verify_submission, decide_submission, record_submission,
  record_verification, settle_submission, submit_pruned, submit_proof_envelope_at,
}
use pi_musubi_core.Proof.Submit.Cases.{IsOpen, let_branch, envelope_cases}

-- What a submission may make of a challenge.
pub data Change (c : VenueChallengeRecord) : VenueChallengeRecord → Type 0 where
  expiring : IsOpen c → Change c (expire c)
  charging : (c.status == challenge_status_issued) ≡ true → Change c (charged c)
  consuming : (at : Instant) → IsOpen c → Change c (consume at c)

pub filled_lem : (v id : Str) → filled v ≡ some id → v ≡ id
filled_lem v id h = elim (Bool-cases (is_empty v)) [
  | inl e ↦ absurd (ground arith)
  | inr e ↦ some_injective (ground arith)
]

is_issued : (b : Bool) → not b ≡ false → b ≡ true
is_issued b h = ground arith

right_of : (a b : Bool) → (a && not b) ≡ true → b ≡ false
right_of a b h = ground arith

failed_not_verified :
    (s : ProofState) (challenge_id : Option Str) (d : VerificationDecision)
    → is_verified d ≡ false
    → is_verified (record_failed_attempt s challenge_id d).1 ≡ false
unfolding record_failed_attempt
failed_not_verified s challenge_id d h =
    let_branch Refused (trimmed_optional challenge_id) _ _ h λ id _.
      let_branch Refused (get id s.venue_challenges_by_id) _ _ h λ c g.
        if_cases Refused (not (c.status == challenge_status_issued)) _ _ (λ _. h)
          λ _.
            if_cases (λ x. is_verified x ≡ false)
              (leb max_challenge_failed_attempts (charged c).failed_attempt_count) _ _ (λ _. refl)
              (λ _. h)
  where
    Refused : ProofState × VerificationDecision → Type 0
    Refused r = is_verified r.1 ≡ false

module _ (crates : Crates) (input : ProofEnvelopeInput) (ids : SubmitIds)
    (received_at : Instant) where
  -- The challenge that an accepted submission redeems, and the state that its checks leave.
  pub record Accepted (s : ProofState) : Type 0 where
    pub mode : SubmissionFallbackMode
    pub parsed : parse_submission_fallback_mode input.fallback_mode ≡ some mode
    pub new_key :
        get (replay_key crates s.server_secret input) s.proof_submission_id_by_replay_key ≡ none
    pub redeems :
        Redeems crates input received_at (submission_flags crates input ids received_at) s mode

  abbrev verification : ProofState → ProofState × VerificationResult
  verification s = verify_submission crates input ids received_at s

  submission_cases :
      (s : ProofState) (Q : ProofState × VerificationResult → Type 0)
      → ((r : VerificationResult) → Q (s, r))
      → ((id : Str) (c : VenueChallengeRecord)
          → get id s.venue_challenges_by_id ≡ some c
          → IsOpen c
          → Q (
            put_challenge s id (expire c),
            no_charge (submission_flags crates input ids received_at) (rejected "expired"),
          ))
      → Q (verification s)
  unfolding verify_submission
  submission_cases s Q kept expired =
      let_branch Q (parse_submission_fallback_mode input.fallback_mode) _ _ (kept _) λ mode _.
        envelope_cases crates input received_at (submission_flags crates input ids received_at) s
          mode Q kept expired
          (get (replay_key crates s.server_secret input) s.proof_submission_id_by_replay_key)

  -- An accepted submission redeems a challenge, and its checks change nothing.
  pub verified-Accepted :
      (s : ProofState) → is_verified (verification s).1.decision ≡ true → Accepted s
  unfolding verify_submission
  verified-Accepted s =
      let_branch
        (λ (r : ProofState × VerificationResult). is_verified r.1.decision ≡ true → Accepted s)
        (parse_submission_fallback_mode input.fallback_mode) _ _ (λ h. absurd (clash h refl))
        λ mode e h.
          let (n, r) =
            (verify_envelope-Accepts crates input received_at
                (submission_flags crates input ids received_at) s mode _).0
              h in
          record { mode = mode; parsed = e; new_key = n; redeems = r }

  verified_same :
      (s : ProofState) → is_verified (verification s).1.decision ≡ true → (verification s).0 ≡ s
  verified_same s =
      submission_cases s (λ r. is_verified r.1.decision ≡ true → r.0 ≡ s) (λ _ _. refl)
        (λ _ _ _ _ h. absurd (clash h refl))

  pub decide_accepted :
      (s : ProofState)
      → is_verified (decide_submission crates input ids received_at s).1 ≡ true
      → Accepted s
  unfolding decide_submission
  decide_accepted s =
      if_cases (λ (r : ProofState × VerificationDecision). is_verified r.1 ≡ true → Accepted s)
        ((verification s).1.charge_attempt && not (is_verified (verification s).1.decision)) _ _
        (λ c h. absurd (
          clash h (
            failed_not_verified (verification s).0 input.challenge_id (verification s).1.decision
              (right_of _ _ c))))
        (λ _ h. verified-Accepted s h)

  -- An accepted submission is not charged.
  pub decide_verified :
      (s : ProofState)
      → is_verified (decide_submission crates input ids received_at s).1 ≡ true
      → (decide_submission crates input ids received_at s).0 ≡ s
  unfolding decide_submission
  decide_verified s =
      if_cases (λ (r : ProofState × VerificationDecision). is_verified r.1 ≡ true → r.0 ≡ s)
        ((verification s).1.charge_attempt && not (is_verified (verification s).1.decision)) _ _
        (λ c h. absurd (
          clash h (
            failed_not_verified (verification s).0 input.challenge_id (verification s).1.decision
              (right_of _ _ c))))
        (λ _ h. verified_same s h)

  -- The challenge that is consumed, by the identifier of the envelope, may be redeemed.
  abbrev Redeemable : ProofState → Option Str → Type 0
  Redeemable s o =
      (v : Str) (c : VenueChallengeRecord)
      → o ≡ some v
      → get (trim v) s.venue_challenges_by_id ≡ some c
      → IsOpen c

  redeemable :
      (s : ProofState) (d : VerificationDecision)
      → Redeemable s input.challenge_id
      → Redeemable (record_submission crates input ids received_at d s) input.challenge_id
  unfolding record_submission
  redeemable s d h v c e g = h v c e g

  accepted_usable : (s : ProofState) → Accepted s → Redeemable s input.challenge_id
  unfolding trimmed_optional
  accepted_usable s a v c e g =
      let r = a.redeems in
      let named : trim v ≡ r.challenge_id =
        filled_lem (trim v) r.challenge_id (rw e at r.given_challenge_id) in
      let same : c ≡ r.challenge = some_injective (
        sym g
        ∙ subst (λ i. get i s.venue_challenges_by_id ≡ some r.challenge) (sym named) r.found) in
      subst IsOpen (sym same) (record {
        unconsumed = r.unconsumed;
        not_closed = r.not_closed;
        attempts_left = r.attempts_left;
      })

  decided_usable :
      (s : ProofState)
      → is_verified (decide_submission crates input ids received_at s).1 ≡ true
      → Redeemable (decide_submission crates input ids received_at s).0 input.challenge_id
  decided_usable s h =
      subst (λ t. Redeemable t input.challenge_id) (sym (decide_verified s h))
        (accepted_usable s (decide_accepted s h))

  -- What the steps of a submission keep holds after it.
  module _ (G : ProofState → Type 0)
      (pruning : (s : ProofState) → G s → G (prune_ephemeral_proof_state crates s received_at))
      (changing : (s : ProofState) (id : Str) (c c' : VenueChallengeRecord)
        → get id s.venue_challenges_by_id ≡ some c
        → Change c c'
        → G s
        → G (put_challenge s id c'))
      (recording : (s : ProofState) (d : VerificationDecision)
        → G s
        → G (record_submission crates input ids received_at d s))
      (verifying : (s : ProofState) (d : VerificationDecision) (flags : List String)
        → G s
        → G (record_verification crates input ids received_at d flags s)) where
    verification-keeps : (s : ProofState) → G s → G (verification s).0
    verification-keeps s h =
        submission_cases s (λ r. G r.0) (λ _. h)
          λ id c g usable. changing s id c (expire c) g (Change.expiring usable) h

    failed-keeps :
        (s : ProofState) (challenge_id : Option Str) (d : VerificationDecision)
        → G s
        → G (record_failed_attempt s challenge_id d).0
    unfolding record_failed_attempt
    failed-keeps s challenge_id d h =
        let_branch (λ (r : ProofState × VerificationDecision). G r.0)
          (trimmed_optional challenge_id) _ _ h
          λ id _.
            let_branch (λ (r : ProofState × VerificationDecision). G r.0)
              (get id s.venue_challenges_by_id) _ _ h
              λ c g.
                if_cases (λ (r : ProofState × VerificationDecision). G r.0)
                  (not (c.status == challenge_status_issued)) _ _ (λ _. h)
                  λ e. changing s id c (charged c) g (Change.charging (is_issued _ e)) h

    decide-keeps : (s : ProofState) → G s → G (decide_submission crates input ids received_at s).0
    unfolding decide_submission
    decide-keeps s h =
        if_cases (λ (r : ProofState × VerificationDecision). G r.0)
          ((verification s).1.charge_attempt && not (is_verified (verification s).1.decision)) _ _
          (λ _.
            failed-keeps (verification s).0 input.challenge_id (verification s).1.decision
              (verification-keeps s h))
          (λ _. verification-keeps s h)

    consume-keeps :
        (s : ProofState) (o : Option Str)
        → Redeemable s o
        → G s
        → G (consume_challenge s o received_at)
    unfolding consume_challenge
    consume-keeps s none usable h = h
    consume-keeps s (some v) usable h =
        let_branch (λ (r : ProofState). G r) (get (trim v) s.venue_challenges_by_id) _ _ h
          λ c g.
            changing s (trim v) c (consume received_at c) g
              (Change.consuming received_at (usable v c refl g)) h

    settle-keeps :
        (s : ProofState) (d : VerificationDecision) (flags : List String)
        → (is_verified d ≡ true → Redeemable s input.challenge_id)
        → G s
        → G (settle_submission crates input ids received_at d flags s)
    unfolding settle_submission
    settle-keeps s d flags usable h = verifying _ d flags (
        if_cases G (is_verified d) _ _
          (λ v.
            consume-keeps (record_submission crates input ids received_at d s) input.challenge_id
              (redeemable s d (usable v)) (recording s d h))
          (λ _. recording s d h))

    abbrev pruned : ProofState → ProofState
    pruned s = prune_ephemeral_proof_state crates s received_at

    -- The state that is pruned at last.
    abbrev pub settled : ProofState → ProofState
    settled s =
        settle_submission crates input ids received_at
          (decide_submission crates input ids received_at (pruned s)).1
          (verify_submission crates input ids received_at (pruned s)).1.flags
          (decide_submission crates input ids received_at (pruned s)).0

    pub settled-keeps : (s : ProofState) → G s → G (settled s)
    settled-keeps s h =
        settle-keeps (decide_submission crates input ids received_at (pruned s)).0
          (decide_submission crates input ids received_at (pruned s)).1
          (verify_submission crates input ids received_at (pruned s)).1.flags
          (decided_usable (pruned s)) (decide-keeps (pruned s) (pruning s h))

    -- What a submission keeps, from what its steps keep.
    pub submit-keeps :
        (s : ProofState) → G s → G (submit_proof_envelope_at crates input ids received_at s).0
    unfolding submit_proof_envelope_at submit_pruned
    submit-keeps s h = pruning (settled s) (settled-keeps s h)
