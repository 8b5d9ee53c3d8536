-- ===== src/Proof/Submit/Cases.antt =====
-- apps/backend/src/services/proof.rs: how `submit_proof_envelope_at` can end, as a rule for what
-- holds of the challenges after it.
use pi_musubi_core.Prelude.{
  ℕ, ◌≡◌, ◌<◌, refl, String, Bool, true, false, not, ◌||◌, Option, none, some, List, [], ◌∷◌, arith,
  leb, ltb, ◌==◌, nat_eq, list_eq, string_eq,
}
use pi_musubi_core.Prelude.Text.{codes}
use pi_musubi_core.HashMap.{get}
use pi_musubi_core.Proof.State.{Str, Instant, Crates, ProofState, VenueChallengeRecord}
use pi_musubi_core.Proof.Messages.{ProofEnvelopeInput, SubmissionFallbackMode}
use pi_musubi_core.Proof.Texts.{trimmed_optional}
use pi_musubi_core.Proof.Digest.{digest_parts}
use pi_musubi_core.Proof.Challenge.{challenge_status_quarantined, max_challenge_failed_attempts}
use pi_musubi_core.Proof.Start.{is_some}
use pi_musubi_core.Proof.Verify.{VerificationResult, rejected, no_charge, risk_requires_quarantine}
use pi_musubi_core.Proof.Verify.Chain.{
  let_else, when◌return◌otherwise◌, expire, put_challenge, verify_challenge, verify_envelope,
}

-- A test with an early return, and `let … else`.
pub branch :
    {B : Type 0} (G : B → Type 0) (b : Bool) (x y : B)
    → G x
    → (b ≡ false → G y)
    → G (when b return x otherwise y)
unfolding when◌return◌otherwise◌
branch G true x y gx gy = gx
branch G false x y gx gy = gy refl

pub let_branch :
    {A B : Type 0} (G : B → Type 0) (o : Option A) (x : B) (rest : A → B)
    → G x
    → ((a : A) → o ≡ some a → G (rest a))
    → G (let_else o x rest)
unfolding let_else
let_branch G none x rest gx gr = gx
let_branch G (some a) x rest gx gr = gr a refl

-- A challenge that may still be redeemed, except for the time.
pub record IsOpen (c : VenueChallengeRecord) : Type 0 where
  pub unconsumed : is_some c.consumed_at ≡ false
  pub not_closed : (c.status == challenge_status_quarantined) ≡ false
  pub attempts_left : c.failed_attempt_count < 3

attempts : (b : Bool) (n : ℕ) → (b || leb 3 n) ≡ false → (b ≡ false) × (n < 3)
attempts b n h = ground arith

module _ (crates : Crates) (input : ProofEnvelopeInput) (received_at : Instant)
    (flags : List String) (store : ProofState) (mode : SubmissionFallbackMode)
    (Q : ProofState × VerificationResult → Type 0) (kept : (r : VerificationResult) → Q (store, r))
    (expired : (id : Str) (c : VenueChallengeRecord)
      → get id store.venue_challenges_by_id ≡ some c
      → IsOpen c
      → Q (put_challenge store id (expire c), no_charge flags (rejected "expired"))) where
  challenge_cases :
      (id venue nonce : Str) (c : VenueChallengeRecord)
      → get id store.venue_challenges_by_id ≡ some c
      → Q (verify_challenge crates input received_at flags store mode id venue nonce c)
  unfolding verify_challenge
  challenge_cases id venue nonce c g =
      branch Q (not (c.subject_account_id == input.subject_account_id)) _ _ (kept _) λ _.
        branch Q (not (c.venue_id == venue)) _ _ (kept _) λ _.
          branch Q (is_some c.consumed_at) _ _ (kept _) λ u.
            branch Q
              ((c.status == challenge_status_quarantined)
                || leb max_challenge_failed_attempts c.failed_attempt_count)
              _ _ (kept _)
              λ t.
                branch Q (ltb c.expires_at received_at) _ _
                  (expired id c g (
                    let (q, n) =
                      attempts (c.status == challenge_status_quarantined) c.failed_attempt_count
                        t in
                    record { unconsumed = u; not_closed = q; attempts_left = n }))
                  λ _.
                    branch Q
                      (not (
                        c.client_nonce_hash
                        == digest_parts crates (codes "client-nonce" ∷ id ∷ nonce ∷ [])))
                      _ _ (kept _)
                      λ _. branch Q (risk_requires_quarantine flags) _ _ (kept _) λ _. kept _

  pub envelope_cases :
      (replayed : Option Str)
      → Q (verify_envelope crates input received_at flags store mode replayed)
  unfolding verify_envelope
  envelope_cases (some id) = kept _
  envelope_cases none = let_branch Q (trimmed_optional input.challenge_id) _ _ (kept _) λ id _.
      let_branch Q (trimmed_optional input.venue_id) _ _ (kept _) λ venue _.
        let_branch Q (trimmed_optional input.client_nonce) _ _ (kept _) λ nonce _.
          let_branch Q (get id store.venue_challenges_by_id) _ _ (kept _)
            λ c g. challenge_cases id venue nonce c g
