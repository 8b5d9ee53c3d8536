-- ===== src/Proof/Start/Steps.antt =====
-- apps/backend/src/services/proof.rs: what `start_proof_challenge` keeps, from what its steps keep.
use pi_musubi_core.Prelude.{
  ◌≡◌, Option, none, some, [], Result, ok, err, Result-cases, inl, inr, if_cases, leb, ◌==◌, nat_eq,
  list_eq, string_eq, pair_eq, int_eq, true, false,
}
use pi_musubi_core.Prelude.Int.{ℤ}
use pi_musubi_core.HashMap.{contains_key}
use pi_musubi_core.Proof.Keys.Present.{HasKeys}
use pi_musubi_core.Proof.Keys.Ensure.{ensured_present}
use pi_musubi_core.Proof.State.{Str, Instant, Crates, ProofState}
use pi_musubi_core.Proof.Messages.{
  StartProofChallengeInput, StartProofChallengeServiceOutcome, ProofError,
}
use pi_musubi_core.Proof.Texts.{required_trimmed, unwrap_or, fallback_operator_pin}
use pi_musubi_core.Proof.Keys.{ensure_active_venue_key}
use pi_musubi_core.Proof.Challenge.{
  operator_pin_rate_limit_per_minute, max_active_proof_challenges_per_subject,
  max_active_proof_challenges, active_challenge_count, active_challenge_count_for_subject,
  operator_pin_issuance_count,
}
use pi_musubi_core.Proof.Prune.{prune_ephemeral_proof_state}
use pi_musubi_core.Proof.Verify.Chain.{put_challenge}
use pi_musubi_core.Proof.Start.{
  StartIds, StartRequest, start_request, IssuedPin, issued_challenge, push_audit, issued_pin,
  store_challenge, issue_pin, issue_challenge, start_pruned, start_proof_challenge,
}

abbrev pub Answer : Type 0
Answer = ProofState × Result ProofError StartProofChallengeServiceOutcome

module _ (crates : Crates) (ids : StartIds) (now : Instant) (G : ProofState → Type 0)
    (keyed : (s : ProofState) → G s → HasKeys s)
    (pruning : (s : ProofState) → G s → G (prune_ephemeral_proof_state crates s now))
    (keying : (s : ProofState) (realm venue : Str)
      → G s
      → G (ensure_active_venue_key crates s realm venue now).0)
    (auditing : (s : ProofState) (request : StartRequest) (p : IssuedPin)
      → leb operator_pin_rate_limit_per_minute
          (operator_pin_issuance_count crates s request.realm_id request.venue_id p.operator_id now)
        ≡ false
      → G s
      → G (push_audit crates request ids now s p))
    (adding : (s : ProofState) (request : StartRequest) (version : ℤ) (pin : Option IssuedPin)
      → contains_key (request.realm_id, (request.venue_id, version)) s.venue_key_versions ≡ true
      → G s
      → G (
          put_challenge s ids.challenge_id
            (issued_challenge crates request ids now version pin))) where
  module _ (request : StartRequest) where
    abbrev HasKey : ProofState → ℤ → Type 0
    HasKey s version =
        contains_key (request.realm_id, (request.venue_id, version)) s.venue_key_versions ≡ true

    store-keeps :
        (s : ProofState) (version : ℤ) (pin : Option IssuedPin)
        → HasKey s version
        → G s
        → G (store_challenge crates request ids now s version pin).0
    unfolding store_challenge
    store-keeps s version pin k h =
        pruning
          (put_challenge s ids.challenge_id (issued_challenge crates request ids now version pin))
          (adding s request version pin k h)

    pin-keeps :
        (s : ProofState) (version : ℤ) (operator : Result ProofError Str)
        → HasKey s version
        → G s
        → G (issue_pin crates request ids now s version operator).0
    unfolding issue_pin issued_pin
    pin-keeps s version (err e) k h = h
    pin-keeps s version (ok operator) k h =
        if_cases (λ (r : Answer). G r.0)
          (leb operator_pin_rate_limit_per_minute
            (operator_pin_issuance_count crates s request.realm_id request.venue_id operator now))
          _ _ (λ _. h)
          λ few.
            store-keeps
              (push_audit crates request ids now s
                (issued_pin crates request ids now s.server_secret operator))
              version (some (issued_pin crates request ids now s.server_secret operator)) k
              (auditing s request (issued_pin crates request ids now s.server_secret operator) few
                h)

    issue-keeps :
        (s : ProofState) (operator : Option Str)
        → G s
        → G (issue_challenge crates request ids now s operator).0
    unfolding issue_challenge
    issue-keeps s operator h =
        let keyed_state = ensure_active_venue_key crates s request.realm_id request.venue_id now in
        let k = ensured_present crates s request.realm_id request.venue_id now (keyed s h) in
        let g = keying s request.realm_id request.venue_id h in
        if_cases (λ (r : Answer). G r.0) (request.fallback_mode == fallback_operator_pin) _ _
          (λ _.
            pin-keeps keyed_state.0 keyed_state.1
              (required_trimmed (unwrap_or operator [])
                "operator_id is required for operator_pin fallback")
              k g)
          (λ _. store-keeps keyed_state.0 keyed_state.1 none k g)

    pruned-keeps :
        (s : ProofState) (operator : Option Str)
        → G s
        → G (start_pruned crates request ids now s operator).0
    unfolding start_pruned
    pruned-keeps s operator h =
        if_cases (λ (r : Answer). G r.0)
          (leb max_active_proof_challenges_per_subject
            (active_challenge_count_for_subject s request.subject_account_id now))
          _ _ (λ _. h)
          λ _.
            if_cases (λ (r : Answer). G r.0)
              (leb max_active_proof_challenges (active_challenge_count s now)) _ _ (λ _. h)
              λ _. issue-keeps s operator h

  -- What a start keeps, from what its steps keep.
  pub start-keeps :
      (input : StartProofChallengeInput) (s : ProofState)
      → G s
      → G (start_proof_challenge crates input ids now s).0
  unfolding start_proof_challenge
  start-keeps input s h = elim (Result-cases (start_request input)) [
    | inl (request, e) ↦
        rw (e, start_proof_challenge)
          (pruned-keeps request (prune_ephemeral_proof_state crates s now) input.operator_id
            (pruning s h))
    | inr (error, e) ↦ rw (e, start_proof_challenge) h
  ]
