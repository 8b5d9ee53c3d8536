-- ===== src/Proof/Prune/Challenges.antt =====
-- apps/backend/src/services/proof.rs: what the pruning does to the challenges and to the keys.
use pi_musubi_core.Prelude.{
  ◌≡◌, refl, false, not, some, List, arith, inl, inr, Bool-cases, nat_eq, list_eq, string_eq,
}
use pi_musubi_core.HashMap.{HashMap, get, Distinct}
use pi_musubi_core.HashMap.Select.{elem}
use pi_musubi_core.HashMap.Retain.{get-retain, Distinct-retain}
use pi_musubi_core.Proof.State.{Str, Instant, Crates, ProofState, VenueChallengeRecord}
use pi_musubi_core.Proof.Keys.Prune.{prune_venue_key_state}
use pi_musubi_core.Proof.Prune.{
  is_nil, without, expired_challenge_ids, prune_venue_challenge_state,
  prune_operator_pin_audit_state, prune_proof_submission_state, prune_ephemeral_proof_state,
  drop_submissions, expired_submission_ids,
}
use pi_musubi_core.Proof.Challenge.{
  proof_submission_retention_seconds, proof_challenge_retention_seconds,
}

module _ {V : Type 0} (ids : List Str) (m : HashMap Str V) (d : Distinct m) where
  pub without-some : (j : Str) (v : V) → get j (without ids m) ≡ some v → get j m ≡ some v
  unfolding without
  without-some j v h = elim (Bool-cases (is_nil ids)) [
    | inl e ↦ rw (e, without) at h
    | inr e ↦ ground (arith, rw (e, without) at h, get-retain (λ id _. not (elem id ids)) j m d)
  ]

  pub without_keeps :
      (j : Str) (v : V) → get j m ≡ some v → elem j ids ≡ false → get j (without ids m) ≡ some v
  unfolding without
  without_keeps j v g h = elim (Bool-cases (is_nil ids)) [
    | inl e ↦ rw (e, without) g
    | inr e ↦ rw (e, without) (ground (arith, get-retain (λ id _. not (elem id ids)) j m d))
  ]

  pub without-Distinct : Distinct (without ids m)
  unfolding without
  without-Distinct = elim (Bool-cases (is_nil ids)) [
    | inl e ↦ rw (e, without) d
    | inr e ↦ rw (e, without) (Distinct-retain (λ id _. not (elem id ids)) m d)
  ]

-- What holds of each challenge under its identifier.
abbrev pub Each : (Str → VenueChallengeRecord → Type 0) → ProofState → Type 0
Each P s = (id : Str) (c : VenueChallengeRecord) → get id s.venue_challenges_by_id ≡ some c → P id c

module _ (crates : Crates) (s : ProofState) (now : Instant) where
  -- Neither the audits nor the submissions touch the rest of the state.
  pub prune_submissions_keeps :
      {A : Type 0} (field : ProofState → A)
      → ((ids : List Str) → field (drop_submissions ids s) ≡ field s)
      → field (prune_proof_submission_state crates s now) ≡ field s
  unfolding prune_proof_submission_state
  prune_submissions_keeps field h =
      elim (Bool-cases (
        is_nil (
          expired_submission_ids s.proof_submissions_by_id
            (crates.sub_seconds now proof_submission_retention_seconds)))) [
              | inl e ↦ rw (e, prune_proof_submission_state) refl
              | inr e ↦ rw (e, prune_proof_submission_state) (h _)
            ]

module _ (crates : Crates) (s : ProofState) (now : Instant) where
  abbrev before_submissions : ProofState
  before_submissions =
      prune_operator_pin_audit_state crates
        (prune_venue_key_state (prune_venue_challenge_state crates s now)) now

  pub prune_challenges :
      (prune_ephemeral_proof_state crates s now).venue_challenges_by_id
      ≡ without
          (expired_challenge_ids s.venue_challenges_by_id
            (crates.sub_seconds now proof_challenge_retention_seconds)
            now)
          s.venue_challenges_by_id
  unfolding prune_ephemeral_proof_state prune_operator_pin_audit_state prune_venue_key_state
      prune_venue_challenge_state drop_submissions
  prune_challenges =
      prune_submissions_keeps crates before_submissions now (λ t. t.venue_challenges_by_id)
        (λ ids. refl)

  pub prune_secret : (prune_ephemeral_proof_state crates s now).server_secret ≡ s.server_secret
  unfolding prune_ephemeral_proof_state prune_operator_pin_audit_state prune_venue_key_state
      prune_venue_challenge_state drop_submissions
  prune_secret =
      prune_submissions_keeps crates before_submissions now (λ t. t.server_secret) (λ ids. refl)

  pub prune_keys :
      (prune_ephemeral_proof_state crates s now).venue_key_versions
      ≡ (prune_venue_key_state (prune_venue_challenge_state crates s now)).venue_key_versions
  unfolding prune_ephemeral_proof_state prune_operator_pin_audit_state drop_submissions
  prune_keys =
      prune_submissions_keeps crates before_submissions now (λ t. t.venue_key_versions)
        (λ ids. refl)

  pub prune_active :
      (prune_ephemeral_proof_state crates s now).active_key_version_by_venue
      ≡ (prune_venue_key_state
          (prune_venue_challenge_state crates s now)).active_key_version_by_venue
  unfolding prune_ephemeral_proof_state prune_operator_pin_audit_state drop_submissions
  prune_active =
      prune_submissions_keeps crates before_submissions now (λ t. t.active_key_version_by_venue)
        (λ ids. refl)

  pub prune-Each :
      (P : Str → VenueChallengeRecord → Type 0)
      → Distinct s.venue_challenges_by_id
      → Each P s
      → Each P (prune_ephemeral_proof_state crates s now)
  prune-Each P d h id c g =
      h id c (without-some _ s.venue_challenges_by_id d id c (rw (prune_challenges) at g))

  pub prune-Distinct :
      Distinct s.venue_challenges_by_id
      → Distinct (prune_ephemeral_proof_state crates s now).venue_challenges_by_id
  prune-Distinct d = rw (prune_challenges) (without-Distinct _ s.venue_challenges_by_id d)
