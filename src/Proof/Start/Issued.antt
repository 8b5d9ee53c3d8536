-- ===== src/Proof/Start/Issued.antt =====
-- apps/backend/src/services/proof.rs: a start that succeeds leaves its challenge in the state.
use pi_musubi_core.Prelude.{
  ◌≤◌, ◌≡◌, true, Option, none, some, [], Result, ok, err, if_cases, arith, subst, leb, ◌==◌,
  nat_eq, list_eq, string_eq, pair_eq, int_eq,
}
use pi_musubi_core.Prelude.Int.{ℤ}
use pi_musubi_core.HashMap.{get, Distinct}
use pi_musubi_core.HashMap.Laws.{get-insert_self, Distinct-insert}
use pi_musubi_core.Proof.State.{Str, Instant, Crates, ProofState}
use pi_musubi_core.Proof.Messages.{
  StartProofChallengeInput, StartProofChallengeServiceOutcome, ProofError,
}
use pi_musubi_core.Proof.Texts.{required_trimmed, unwrap_or, fallback_operator_pin}
use pi_musubi_core.Proof.Keys.{ensure_active_venue_key}
use pi_musubi_core.Proof.Keys.Ensure.{ensure_cases}
use pi_musubi_core.Proof.Challenge.{
  operator_pin_rate_limit_per_minute, max_active_proof_challenges_per_subject,
  max_active_proof_challenges, active_challenge_count, active_challenge_count_for_subject,
  operator_pin_issuance_count, proof_challenge_retention_seconds, challenge_ttl_seconds,
  is_challenge_active,
}
use pi_musubi_core.Proof.Prune.{prune_ephemeral_proof_state}
use pi_musubi_core.Proof.Prune.Active.{prune_keeps_active}
use pi_musubi_core.Proof.Prune.Challenges.{prune-Distinct}
use pi_musubi_core.Proof.Verify.Chain.{put_challenge}
use pi_musubi_core.Proof.Start.{
  StartIds, StartRequest, start_request, IssuedPin, issued_challenge, start_outcome, push_audit,
  issued_pin, store_challenge, issue_pin, issue_challenge, start_pruned, start_proof_challenge,
}
use pi_musubi_core.Proof.Start.Steps.{Answer}

module _ (crates : Crates) (ids : StartIds) (now : Instant)
    (past : crates.sub_seconds now proof_challenge_retention_seconds ≤ now)
    (future : now ≤ crates.add_seconds now challenge_ttl_seconds) where
  module _ (request : StartRequest) where
    -- The challenge of the outcome is in the state.
    abbrev pub Stored : ProofState → StartProofChallengeServiceOutcome → Type 0
    Stored t outcome =
        (pin : Option IssuedPin) × (get ids.challenge_id t.venue_challenges_by_id
          ≡ some (issued_challenge crates request ids now outcome.client.venue_key_version pin))

    abbrev Issues : Answer → Type 0
    Issues r = (outcome : StartProofChallengeServiceOutcome) → r.1 ≡ ok outcome → Stored r.0 outcome

    fails : (s : ProofState) (e : ProofError) → Issues (s, err e)
    fails s e outcome h = absurd (cc)

    new_active :
        (version : ℤ) (pin : Option IssuedPin)
        → is_challenge_active now (issued_challenge crates request ids now version pin) ≡ true
    unfolding issued_challenge is_challenge_active
    new_active version pin = ground arith

    abbrev answered :
        StartProofChallengeServiceOutcome → Result ProofError StartProofChallengeServiceOutcome
    answered outcome = ok outcome

    version_of :
        (version : ℤ) (pin : Option IssuedPin) (outcome : StartProofChallengeServiceOutcome)
        → answered (start_outcome crates request ids now version pin) ≡ ok outcome
        → version ≡ outcome.client.venue_key_version
    version_of version pin outcome h = ground arith

    store-Issues :
        (s : ProofState) (version : ℤ) (pin : Option IssuedPin)
        → Distinct s.venue_challenges_by_id
        → Issues (store_challenge crates request ids now s version pin)
    unfolding store_challenge
    store-Issues s version pin d outcome h = (
      pin,
      subst
          (λ v.
            get ids.challenge_id
              (prune_ephemeral_proof_state crates
                (put_challenge s ids.challenge_id
                  (issued_challenge crates request ids now version pin))
                now).venue_challenges_by_id
            ≡ some (issued_challenge crates request ids now v pin))
          (version_of version pin outcome h)
          (prune_keeps_active crates
            (put_challenge s ids.challenge_id (issued_challenge crates request ids now version pin))
            now ids.challenge_id (issued_challenge crates request ids now version pin)
            (Distinct-insert ids.challenge_id (issued_challenge crates request ids now version pin)
              s.venue_challenges_by_id d)
            past
            (get-insert_self ids.challenge_id (issued_challenge crates request ids now version pin)
              s.venue_challenges_by_id)
            (new_active version pin)),
    )

    pin-Issues :
        (s : ProofState) (version : ℤ) (operator : Result ProofError Str)
        → Distinct s.venue_challenges_by_id
        → Issues (issue_pin crates request ids now s version operator)
    unfolding issue_pin
    pin-Issues s version (err e) d = fails s e
    pin-Issues s version (ok operator) d =
        let p = issued_pin crates request ids now s.server_secret operator in
        if_cases Issues
          (leb operator_pin_rate_limit_per_minute
            (operator_pin_issuance_count crates s request.realm_id request.venue_id operator now))
          _ _ (λ _. fails s _)
          (λ _. store-Issues (push_audit crates request ids now s p) version (some p) d)

    issue-Issues :
        (s : ProofState) (operator : Option Str)
        → Distinct s.venue_challenges_by_id
        → Issues (issue_challenge crates request ids now s operator)
    unfolding issue_challenge
    issue-Issues s operator d =
        let k = ensure_active_venue_key crates s request.realm_id request.venue_id now in
        let same : Distinct k.0.venue_challenges_by_id =
          ensure_cases crates s request.realm_id request.venue_id now
            (λ r. Distinct r.0.venue_challenges_by_id) (λ _ _. d) (λ _. d) in
        if_cases Issues (request.fallback_mode == fallback_operator_pin) _ _
          (λ _.
            pin-Issues k.0 k.1
              (required_trimmed (unwrap_or operator [])
                "operator_id is required for operator_pin fallback")
              same)
          (λ _. store-Issues k.0 k.1 none same)

    pruned-Issues :
        (s : ProofState) (operator : Option Str)
        → Distinct s.venue_challenges_by_id
        → Issues (start_pruned crates request ids now s operator)
    unfolding start_pruned
    pruned-Issues s operator d =
        if_cases Issues
          (leb max_active_proof_challenges_per_subject
            (active_challenge_count_for_subject s request.subject_account_id now))
          _ _ (λ _. fails s _)
          λ _.
            if_cases Issues (leb max_active_proof_challenges (active_challenge_count s now)) _ _
              (λ _. fails s _) λ _. issue-Issues s operator d

  pub start_stores :
      (input : StartProofChallengeInput) (request : StartRequest) (s : ProofState)
      (outcome : StartProofChallengeServiceOutcome)
      → Distinct s.venue_challenges_by_id
      → start_request input ≡ ok request
      → (start_proof_challenge crates input ids now s).1 ≡ ok outcome
      → Stored request (start_proof_challenge crates input ids now s).0 outcome
  unfolding start_proof_challenge
  start_stores input request s outcome d e =
      rw (e, start_proof_challenge)
        (pruned-Issues request (prune_ephemeral_proof_state crates s now) input.operator_id
          (prune-Distinct crates s now d) outcome)
