-- ===== src/Proof/Invariant/Records.antt =====
-- apps/backend/src/services/proof.rs: the submissions and the replay index in every run.
use pi_musubi_core.Prelude.{
  ◌≤◌, ◌≡◌, refl, sym, ap, ◌∙◌, subst, false, true, some, arith, length, nat_eq, list_eq, string_eq,
  inl, inr, Option-cases,
}
use pi_musubi_core.HashMap.{get, contains_key}
use pi_musubi_core.Proof.State.{
  Str, Instant, Crates, ProofState, ProofSubmissionRecord, with_server_secret,
}
use pi_musubi_core.Proof.Messages.{
  StartProofChallengeInput, ProofEnvelopeInput, SubmissionFallbackMode,
}
use pi_musubi_core.Proof.Texts.{parse_submission_fallback_mode}
use pi_musubi_core.Proof.Digest.{replay_key}
use pi_musubi_core.Proof.Keys.Ensure.{ensure_cases}
use pi_musubi_core.Proof.Prune.{prune_ephemeral_proof_state}
use pi_musubi_core.Proof.Prune.Challenges.{prune_secret}
use pi_musubi_core.Proof.Prune.Valid.{IsKeyed, prune-IsKeyed}
use pi_musubi_core.Proof.Prune.Indexed.{IsIndexed, prune-IsIndexed, insert-Indexed, Indexed-get}
use pi_musubi_core.Proof.Prune.Few.{prune_few}
use pi_musubi_core.Proof.Start.{StartIds, issued_challenge, push_audit, start_proof_challenge}
use pi_musubi_core.Proof.Start.Steps.{start-keeps}
use pi_musubi_core.Proof.Submit.{
  SubmitIds, submission_record, record_submission, record_verification, submit_pruned,
  submit_proof_envelope_at,
}
use pi_musubi_core.Proof.Submit.Steps.{submit-keeps}
use pi_musubi_core.Proof.Submit.Replay.{replayed_envelope}
use pi_musubi_core.Proof.Invariant.{
  Run, here, started, submitted, settled_state, IsKeyed-like, issued_key, put-IsKeyed,
  ensure-IsKeyed,
}
use pi_musubi_core.Proof.Invariant.Once.{Anything, Run-IsProofState}

-- Few submissions, of which each has its replay key in the index.
abbrev IsRecorded : ProofState → Type 0
IsRecorded s = (length s.proof_submissions_by_id ≤ 1024) × IsIndexed s

module _ (crates : Crates) (now : Instant) where
  prune-IsRecorded :
      (s : ProofState) → IsRecorded s → IsRecorded (prune_ephemeral_proof_state crates s now)
  prune-IsRecorded s h = (prune_few crates s now, prune-IsIndexed crates s now h.1)

  start-IsRecorded :
      (input : StartProofChallengeInput) (ids : StartIds) (s : ProofState)
      → IsKeyed s
      → IsRecorded s
      → IsRecorded (start_proof_challenge crates input ids now s).0
  unfolding issued_challenge
  start-IsRecorded input ids s v h =
      (start-keeps crates ids now (λ t. IsKeyed t × IsRecorded t) (λ t g. g.0.has_keys)
        (λ t g. (prune-IsKeyed crates t now g.0, prune-IsRecorded t g.1))
        (λ t realm venue g. (
          ensure-IsKeyed crates now t realm venue g.0,
          ensure_cases crates t realm venue now (λ r. IsRecorded r.0) (λ _ _. g.1) (λ _. g.1),
        ))
        (λ t request p few g.
          (IsKeyed-like t (push_audit crates request ids now t p) refl refl refl g.0, g.1))
        (λ t request version pin k g. (
          put-IsKeyed t ids.challenge_id (issued_challenge crates request ids now version pin)
              (issued_key crates request ids now version pin t k) g.0,
          g.1,
        ))
        input s (v, h)).1

  -- A submission leaves few submissions, whatever there was.
  submit_few :
      (input : ProofEnvelopeInput) (ids : SubmitIds) (s : ProofState)
      → length (submit_proof_envelope_at crates input ids now s).0.proof_submissions_by_id ≤ 1024
  unfolding submit_proof_envelope_at submit_pruned
  submit_few input ids s = prune_few crates (settled_state crates (λ _ _. Unit) input ids now s) now

  submit-IsIndexed :
      (input : ProofEnvelopeInput) (ids : SubmitIds) (s : ProofState)
      → IsIndexed s
      → IsIndexed (submit_proof_envelope_at crates input ids now s).0
  unfolding record_submission record_verification submission_record
  submit-IsIndexed input ids s =
      submit-keeps crates input ids now IsIndexed (λ t. prune-IsIndexed crates t now)
        (λ t id c c' g change h. h)
        (λ t d h.
          insert-Indexed ids.proof_submission_id
            (submission_record crates input ids now t.server_secret d)
            t.proof_submission_id_by_replay_key t.proof_submissions_by_id h)
        (λ t d flags h. h) s

Run-IsRecorded :
    (crates : Crates) (secret : Str) {t : ProofState}
    → Run crates Anything (with_server_secret secret) t
    → IsRecorded t
unfolding with_server_secret
Run-IsRecorded crates secret here = (omega arith, tt)
Run-IsRecorded crates secret (started {t} input ids now run drawn) =
    start-IsRecorded crates now input ids t (Run-IsProofState crates secret run).keyed
      (Run-IsRecorded crates secret run)
Run-IsRecorded crates secret (submitted {t} input ids now run) = (
  submit_few crates now input ids t,
  submit-IsIndexed crates now input ids t (Run-IsRecorded crates secret run).1,
)

-- After any sequence of starts and submissions, whatever their inputs and times, at most 1024
-- submissions are kept.
pub few_submissions :
    (crates : Crates) (secret : Str) {t : ProofState}
    → Run crates Anything (with_server_secret secret) t
    → length t.proof_submissions_by_id ≤ 1024
few_submissions crates secret run = (Run-IsRecorded crates secret run).0

key_present :
    (k : Str) (s : ProofState)
    → contains_key k s.proof_submission_id_by_replay_key ≡ true
    → (old : Str) × (get k s.proof_submission_id_by_replay_key ≡ some old)
unfolding contains_key
key_present k s h = elim (Option-cases (get k s.proof_submission_id_by_replay_key)) [
  | inl e ↦ absurd (ground arith)
  | inr found ↦ found
]

-- After any sequence of starts and submissions: as long as the pruning keeps a submission, an
-- envelope in a known mode with the replay key of that submission is rejected as a replay with the
-- advice to retry, whatever has become of its challenge, and changes no challenge but by the
-- pruning.
pub repeated_envelope :
    (crates : Crates) (secret : Str) {s : ProofState}
    → Run crates Anything (with_server_secret secret) s
    → (input : ProofEnvelopeInput) (ids : SubmitIds) (now : Instant) (id : Str)
      (x : ProofSubmissionRecord) (mode : SubmissionFallbackMode)
    → get id (prune_ephemeral_proof_state crates s now).proof_submissions_by_id ≡ some x
    → replay_key crates s.server_secret input ≡ x.replay_key
    → parse_submission_fallback_mode input.fallback_mode ≡ some mode
    → ((submit_proof_envelope_at crates input ids now s).1.accepted ≡ false)
      × ((submit_proof_envelope_at crates input ids now s).1.reason_code ≡ some "replay")
      × ((submit_proof_envelope_at crates input ids now s).1.next_action ≡ some "retry_proof")
      × ((submit_proof_envelope_at crates input ids now s).0.venue_challenges_by_id
          ≡ (prune_ephemeral_proof_state crates
              (prune_ephemeral_proof_state crates s now)
              now).venue_challenges_by_id)
repeated_envelope crates secret {s} run input ids now id x mode kept same m =
    let pruned = prune_ephemeral_proof_state crates s now in
    let indexed = prune-IsIndexed crates s now (Run-IsRecorded crates secret run).1 in
    let (old, g) = key_present x.replay_key pruned (
      Indexed-get id x pruned.proof_submission_id_by_replay_key pruned.proof_submissions_by_id
        indexed kept) in
    let key : replay_key crates pruned.server_secret input ≡ x.replay_key =
      ap (λ k. replay_key crates k input) (prune_secret crates s now) ∙ same in
    replayed_envelope crates input ids now s mode old m
      (subst (λ k. get k pruned.proof_submission_id_by_replay_key ≡ some old) (sym key) g)
