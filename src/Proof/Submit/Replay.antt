-- ===== src/Proof/Submit/Replay.antt =====
-- apps/backend/src/services/proof.rs: an envelope that is repeated.
use pi_musubi_core.Prelude.{
  ◌≡◌, refl, sym, ap, ◌∙◌, String, false, some, List, nat_eq, list_eq, string_eq,
}
use pi_musubi_core.HashMap.{get}
use pi_musubi_core.Proof.State.{Str, Instant, Crates, ProofState}
use pi_musubi_core.Proof.Messages.{ProofEnvelopeInput, SubmissionFallbackMode}
use pi_musubi_core.Proof.Texts.{parse_submission_fallback_mode}
use pi_musubi_core.Proof.Digest.{replay_key}
use pi_musubi_core.Proof.Prune.{prune_ephemeral_proof_state, without, expired_challenge_ids}
use pi_musubi_core.Proof.Prune.Challenges.{prune_challenges}
use pi_musubi_core.Proof.Challenge.{proof_challenge_retention_seconds}
use pi_musubi_core.Proof.Verify.{rejected}
use pi_musubi_core.Proof.Verify.Chain.{let_else, verify_envelope}
use pi_musubi_core.Proof.Submit.{
  SubmitIds, verify_submission, decide_submission, settle_submission, record_submission,
  record_verification, submit_pruned, submit_proof_envelope_at,
}

module _ (crates : Crates) (input : ProofEnvelopeInput) (ids : SubmitIds) (now : Instant) where
  replay_decided :
      (s : ProofState) (mode : SubmissionFallbackMode) (old : Str)
      → parse_submission_fallback_mode input.fallback_mode ≡ some mode
      → get (replay_key crates s.server_secret input) s.proof_submission_id_by_replay_key ≡ some old
      → decide_submission crates input ids now s ≡ (s, rejected "replay")
  unfolding decide_submission verify_submission let_else verify_envelope
  replay_decided s mode old m g = rw (m, g, decide_submission, verify_submission) refl

  settled_same :
      (s : ProofState) (flags : List String)
      → (settle_submission crates input ids now (rejected "replay") flags s).venue_challenges_by_id
        ≡ s.venue_challenges_by_id
  unfolding settle_submission record_submission record_verification
  settled_same s flags = refl

  -- An envelope whose replay key is in the index, of a submission that the pruning has kept, is
  -- rejected as a replay with the advice to retry, and no challenge is changed: the challenges are
  -- those of the state, pruned before and after.
  pub replayed_envelope :
      (s : ProofState) (mode : SubmissionFallbackMode) (old : Str)
      → parse_submission_fallback_mode input.fallback_mode ≡ some mode
      → get
          (replay_key crates (prune_ephemeral_proof_state crates s now).server_secret input)
          (prune_ephemeral_proof_state crates s now).proof_submission_id_by_replay_key
        ≡ some old
      → ((submit_proof_envelope_at crates input ids now s).1.accepted ≡ false)
        × ((submit_proof_envelope_at crates input ids now s).1.reason_code ≡ some "replay")
        × ((submit_proof_envelope_at crates input ids now s).1.next_action ≡ some "retry_proof")
        × ((submit_proof_envelope_at crates input ids now s).0.venue_challenges_by_id
            ≡ (prune_ephemeral_proof_state crates
                (prune_ephemeral_proof_state crates s now)
                now).venue_challenges_by_id)
  unfolding submit_proof_envelope_at submit_pruned
  replayed_envelope s mode old m g =
      let pruned = prune_ephemeral_proof_state crates s now in
      let flags = (verify_submission crates input ids now pruned).1.flags in
      let e = replay_decided pruned mode old m g in
      (
        rw e refl,
        rw e refl,
        rw e refl,
        ap
              (λ d.
                (prune_ephemeral_proof_state crates
                  (settle_submission crates input ids now d.1 flags d.0)
                  now).venue_challenges_by_id)
              e
            ∙ prune_challenges crates
                (settle_submission crates input ids now (rejected "replay") flags pruned) now
            ∙ ap
                (λ m.
                  without
                    (expired_challenge_ids m
                      (crates.sub_seconds now proof_challenge_retention_seconds) now)
                    m)
                (settled_same pruned flags)
            ∙ sym (prune_challenges crates pruned now),
      )
