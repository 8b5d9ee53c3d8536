-- ===== src/Proof/Invariant/Redeemable.antt =====
-- apps/backend/src/services/proof.rs: a challenge that was issued can be redeemed.
use pi_musubi_core.Prelude.{
  ◌≤◌, ◌≡◌, refl, Bool, true, false, not, ◌&&◌, Option, none, some, ok, arith, if_cases, beq_refl,
  nat_eq, list_eq, string_eq, pair_eq, int_eq,
}
use pi_musubi_core.Prelude.Int.{ℤ}
use pi_musubi_core.HashMap.{get}
use pi_musubi_core.Proof.State.{Str, Instant, Crates, ProofState, VenueKeyVersionRecord}
use pi_musubi_core.Proof.Messages.{
  StartProofChallengeInput, StartProofChallengeServiceOutcome, ProofEnvelopeInput, none_mode,
}
use pi_musubi_core.Proof.Texts.{trimmed_optional, parse_submission_fallback_mode}
use pi_musubi_core.Proof.Digest.{replay_key}
use pi_musubi_core.Proof.Challenge.{
  proof_challenge_retention_seconds, challenge_ttl_seconds, is_challenge_active,
}
use pi_musubi_core.Proof.Prune.{prune_ephemeral_proof_state}
use pi_musubi_core.Proof.Prune.Active.{prune_keeps_active}
use pi_musubi_core.Proof.Prune.Valid.{IsKeyed}
use pi_musubi_core.Proof.Start.{
  StartIds, StartRequest, start_request, IssuedPin, issued_challenge, start_proof_challenge,
}
use pi_musubi_core.Proof.Start.Issued.{start_stores}
use pi_musubi_core.Proof.Invariant.{start-Both}
use pi_musubi_core.Proof.Verify.{
  VerificationResult, VerificationDecision, risk_requires_quarantine, differs,
}
use pi_musubi_core.Proof.Verify.Guards.{give}
use pi_musubi_core.Proof.Verify.Presence.{KeyAdmits}
use pi_musubi_core.Proof.Verify.Accept.{Redeems, verify_envelope-Accepts}
use pi_musubi_core.Proof.Attempt.{is_verified}
use pi_musubi_core.Proof.Submit.{
  SubmitIds, submission_flags, verify_submission, decide_submission, submit_pruned,
  submit_proof_envelope_at,
}

charged_twice : (a b : Bool) → (a && not b) ≡ true → b ≡ true → ⊥
charged_twice a b h k = ground arith

issued_active :
    (crates : Crates) (request : StartRequest) (ids : StartIds) (now at : Instant) (version : ℤ)
    (pin : Option IssuedPin)
    → at ≤ crates.add_seconds now challenge_ttl_seconds
    → is_challenge_active at (issued_challenge crates request ids now version pin) ≡ true
unfolding issued_challenge is_challenge_active
issued_active crates request ids now at version pin in_time = ground arith

module _ (crates : Crates) (input : ProofEnvelopeInput) (ids : SubmitIds) (at : Instant) where
  -- What the checks accept is not charged, and stays accepted.
  decided_accepted :
      (s : ProofState)
      → is_verified (verify_submission crates input ids at s).1.decision ≡ true
      → is_verified (decide_submission crates input ids at s).1 ≡ true
  unfolding decide_submission
  decided_accepted s h =
      if_cases (λ (r : ProofState × VerificationDecision). is_verified r.1 ≡ true)
        ((verify_submission crates input ids at s).1.charge_attempt
          && not (is_verified (verify_submission crates input ids at s).1.decision))
        _ _ (λ c. absurd (charged_twice _ _ c h)) (λ _. h)

  Redeems-is_verified :
      (s : ProofState)
      → parse_submission_fallback_mode input.fallback_mode ≡ some none_mode
      → get (replay_key crates s.server_secret input) s.proof_submission_id_by_replay_key ≡ none
      → Redeems crates input at (submission_flags crates input ids at) s none_mode
      → is_verified (verify_submission crates input ids at s).1.decision ≡ true
  unfolding verify_submission
  Redeems-is_verified s parsed fresh r =
      give (λ (x : ProofState × VerificationResult). is_verified x.1.decision ≡ true)
        (parse_submission_fallback_mode input.fallback_mode) _ _ none_mode parsed
        ((verify_envelope-Accepts crates input at (submission_flags crates input ids at) s none_mode
            _).1
          (fresh, r))

  -- A challenge that a start has issued is redeemed by an envelope that comes before its end, names
  -- it with its subject, venue and nonce, raises no grave risk flag, is not a replay, and shows a
  -- display code that the key of the challenge admits; the key is the one that the pruned state has
  -- under the version that the start has answered.
  pub issued_redeemable :
      (start : StartProofChallengeInput) (start_ids : StartIds) (now : Instant) (s : ProofState)
      (request : StartRequest) (outcome : StartProofChallengeServiceOutcome)
      (key : VenueKeyVersionRecord) (code : Str)
      → IsKeyed s
      → start_request start ≡ ok request
      → (start_proof_challenge crates start start_ids now s).1 ≡ ok outcome
      → crates.sub_seconds now proof_challenge_retention_seconds ≤ now
      → now ≤ crates.add_seconds now challenge_ttl_seconds
      → crates.sub_seconds at proof_challenge_retention_seconds ≤ at
      → at ≤ crates.add_seconds now challenge_ttl_seconds
      → input.subject_account_id ≡ request.subject_account_id
      → trimmed_optional input.challenge_id ≡ some start_ids.challenge_id
      → trimmed_optional input.venue_id ≡ some request.venue_id
      → trimmed_optional input.client_nonce ≡ some start_ids.client_nonce
      → trimmed_optional input.display_code ≡ some code
      → differs outcome.client.venue_key_version input.key_version ≡ false
      → parse_submission_fallback_mode input.fallback_mode ≡ some none_mode
      → risk_requires_quarantine (submission_flags crates input ids at) ≡ false
      → get
          (request.realm_id, (request.venue_id, outcome.client.venue_key_version))
          (prune_ephemeral_proof_state crates
            (start_proof_challenge crates start start_ids now s).0
            at).venue_key_versions
        ≡ some key
      → KeyAdmits crates input at (submission_flags crates input ids at) key code
      → get
          (replay_key crates
            (prune_ephemeral_proof_state crates
              (start_proof_challenge crates start start_ids now s).0
              at).server_secret
            input)
          (prune_ephemeral_proof_state crates
            (start_proof_challenge crates start start_ids now s).0
            at).proof_submission_id_by_replay_key
        ≡ none
      → (submit_proof_envelope_at crates input ids at
          (start_proof_challenge crates start start_ids now s).0).1.accepted
        ≡ true
  unfolding submit_proof_envelope_at submit_pruned issued_challenge
  issued_redeemable start start_ids now s request outcome key code keyed parsed answered past future
        past_at in_time subject named venue nonce shown version mode calm found admits fresh =
      let issued = (start_proof_challenge crates start start_ids now s).0 in
      let pruned = prune_ephemeral_proof_state crates issued at in
      let (pin, stored) =
        start_stores crates start_ids now past future start request s outcome
          keyed.distinct_challenges parsed answered in
      let c = issued_challenge crates request start_ids now outcome.client.venue_key_version pin in
      let (still_keyed, _) =
        start-Both crates (λ _ _. Unit) start start_ids now s (λ _ _ _. tt)
          (keyed, (λ _ _ _. tt)) in
      let there : get start_ids.challenge_id pruned.venue_challenges_by_id ≡ some c =
        prune_keeps_active crates issued at start_ids.challenge_id c still_keyed.distinct_challenges
          past_at stored
          (issued_active crates request start_ids now at outcome.client.venue_key_version pin
            in_time) in
      decided_accepted pruned (
        Redeems-is_verified pruned mode fresh (record {
          challenge_id = start_ids.challenge_id;
          given_challenge_id = named;
          venue_id = request.venue_id;
          given_venue_id = venue;
          client_nonce = start_ids.client_nonce;
          given_client_nonce = nonce;
          challenge = c;
          found = there;
          subject = rw subject (beq_refl request.subject_account_id);
          venue = beq_refl request.venue_id;
          unconsumed = refl;
          not_closed = refl;
          attempts_left = omega arith;
          in_time = in_time;
          nonce = beq_refl c.client_nonce_hash;
          no_grave_risk = calm;
          presence = record {
            display_code = code;
            given_code = shown;
            version = version;
            key = key;
            found_key = found;
            admitted = admits;
          };
        }))
