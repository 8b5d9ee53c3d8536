-- ===== src/Proof/Start/Shape.antt =====
-- apps/backend/src/services/proof.rs: the challenges after `start_proof_challenge`.
use pi_musubi_core.Prelude.{
  ◌≡◌, refl, false, Option, none, some, [], Result, ok, err, Result-cases, inl, inr, if_cases, leb,
  ◌==◌, nat_eq, list_eq, string_eq, pair_eq, int_eq,
}
use pi_musubi_core.Prelude.Int.{ℤ}
use pi_musubi_core.HashMap.{HashMap, insert}
use pi_musubi_core.Proof.State.{Str, Instant, Crates, ProofState, VenueChallengeRecord}
use pi_musubi_core.Proof.Messages.{StartProofChallengeInput, ProofError}
use pi_musubi_core.Proof.Texts.{required_trimmed, unwrap_or, fallback_operator_pin}
use pi_musubi_core.Proof.Keys.{ensure_active_venue_key}
use pi_musubi_core.Proof.Keys.Ensure.{ensure_cases}
use pi_musubi_core.Proof.Challenge.{
  operator_pin_rate_limit_per_minute, max_active_proof_challenges_per_subject,
  max_active_proof_challenges, active_challenge_count, active_challenge_count_for_subject,
  operator_pin_issuance_count, proof_challenge_retention_seconds,
}
use pi_musubi_core.Proof.Prune.{prune_ephemeral_proof_state, without, expired_challenge_ids}
use pi_musubi_core.Proof.Prune.Challenges.{prune_challenges}
use pi_musubi_core.Proof.Verify.Chain.{put_challenge}
use pi_musubi_core.Proof.Start.{
  StartIds, StartRequest, start_request, IssuedPin, issued_challenge, push_audit, issued_pin,
  store_challenge, issue_pin, issue_challenge, start_pruned, start_proof_challenge,
}
use pi_musubi_core.Proof.Start.Steps.{Answer}

abbrev pub Challenges : Type 0
Challenges = HashMap Str VenueChallengeRecord

module _ (crates : Crates) (ids : StartIds) (now : Instant) (Q : Challenges → Type 0) where
  module _ (request : StartRequest) where
    -- The challenges with a new one, pruned.
    abbrev pub with_new : Challenges → ℤ → Option IssuedPin → Challenges
    with_new m version pin =
        let full =
          insert ids.challenge_id (issued_challenge crates request ids now version pin) m in
        without
          (expired_challenge_ids full (crates.sub_seconds now proof_challenge_retention_seconds)
            now)
          full

    store_shape :
        (s : ProofState) (version : ℤ) (pin : Option IssuedPin)
        → Q (with_new s.venue_challenges_by_id version pin)
        → Q (store_challenge crates request ids now s version pin).0.venue_challenges_by_id
    unfolding store_challenge
    store_shape s version pin h =
        rw
          (prune_challenges crates
            (put_challenge s ids.challenge_id (issued_challenge crates request ids now version pin))
            now)
          h

    pin_shape :
        (s : ProofState) (version : ℤ) (operator : Result ProofError Str)
        → Q s.venue_challenges_by_id
        → ((pin : Option IssuedPin) → Q (with_new s.venue_challenges_by_id version pin))
        → Q (issue_pin crates request ids now s version operator).0.venue_challenges_by_id
    unfolding issue_pin
    pin_shape s version (err e) h new = h
    pin_shape s version (ok operator) h new =
        if_cases (λ (r : Answer). Q r.0.venue_challenges_by_id)
          (leb operator_pin_rate_limit_per_minute
            (operator_pin_issuance_count crates s request.realm_id request.venue_id operator now))
          _ _ (λ _. h)
          λ _.
            store_shape
              (push_audit crates request ids now s
                (issued_pin crates request ids now s.server_secret operator))
              version (some (issued_pin crates request ids now s.server_secret operator))
              (new (some (issued_pin crates request ids now s.server_secret operator)))

    issue_shape :
        (s : ProofState) (operator : Option Str)
        → Q s.venue_challenges_by_id
        → ((version : ℤ) (pin : Option IssuedPin)
            → Q (with_new s.venue_challenges_by_id version pin))
        → Q (issue_challenge crates request ids now s operator).0.venue_challenges_by_id
    unfolding issue_challenge
    issue_shape s operator h new =
        let k = ensure_active_venue_key crates s request.realm_id request.venue_id now in
        let same : k.0.venue_challenges_by_id ≡ s.venue_challenges_by_id =
          ensure_cases crates s request.realm_id request.venue_id now
            (λ r. r.0.venue_challenges_by_id ≡ s.venue_challenges_by_id) (λ _ _. refl)
            (λ _. refl) in
        if_cases (λ (r : Answer). Q r.0.venue_challenges_by_id)
          (request.fallback_mode == fallback_operator_pin) _ _
          (λ _.
            pin_shape k.0 k.1
              (required_trimmed (unwrap_or operator [])
                "operator_id is required for operator_pin fallback")
              (rw same h) (λ pin. rw same (new k.1 pin)))
          (λ _. store_shape k.0 k.1 none (rw same (new k.1 none)))

  -- A start leaves the challenges as they are, or prunes them, or adds one below both limits.
  pub start_shape :
      (input : StartProofChallengeInput) (s : ProofState)
      → Q s.venue_challenges_by_id
      → Q (prune_ephemeral_proof_state crates s now).venue_challenges_by_id
      → ((request : StartRequest) (version : ℤ) (pin : Option IssuedPin)
          → leb max_active_proof_challenges_per_subject (
              active_challenge_count_for_subject
                (prune_ephemeral_proof_state crates s now)
                request.subject_account_id
                now)
            ≡ false
          → leb max_active_proof_challenges
              (active_challenge_count (prune_ephemeral_proof_state crates s now) now)
            ≡ false
          → Q (
              with_new request
                (prune_ephemeral_proof_state crates s now).venue_challenges_by_id
                version
                pin))
      → Q (start_proof_challenge crates input ids now s).0.venue_challenges_by_id
  unfolding start_proof_challenge start_pruned
  start_shape input s same pruned new = elim (Result-cases (start_request input)) [
    | inl (request, e) ↦
        rw (e, start_proof_challenge)
          (if_cases (λ (r : Answer). Q r.0.venue_challenges_by_id)
            (leb max_active_proof_challenges_per_subject (
              active_challenge_count_for_subject (prune_ephemeral_proof_state crates s now)
                request.subject_account_id now))
            _ _ (λ _. pruned)
            λ few.
              if_cases (λ (r : Answer). Q r.0.venue_challenges_by_id)
                (leb max_active_proof_challenges
                  (active_challenge_count (prune_ephemeral_proof_state crates s now) now))
                _ _ (λ _. pruned)
                λ room.
                  issue_shape request (prune_ephemeral_proof_state crates s now) input.operator_id
                    pruned (λ version pin. new request version pin few room))
    | inr (error, e) ↦ rw (e, start_proof_challenge) same
  ]
