-- ===== src/Proof/Verify/Chain.antt =====
-- apps/backend/src/services/proof.rs: the guards of `verify_envelope` and `verify_operator_pin`, in
-- the order of the code.
use pi_musubi_core.Prelude.{
  String, Bool, true, false, not, ◌&&◌, ◌||◌, Option, none, some, List, [], ◌∷◌, ◌++◌, leb, ltb,
  ◌==◌, nat_eq, list_eq, string_eq, int_eq, pair_eq,
}
use pi_musubi_core.Prelude.Text.{codes}
use pi_musubi_core.HashMap.{get, insert}
use pi_musubi_core.Proof.State.{
  Str, Instant, Crates, ProofState, VenueChallengeRecord, VenueKeyVersionRecord,
}
use pi_musubi_core.Proof.Messages.{
  ProofEnvelopeInput, SubmissionFallbackMode, none_mode, operator_pin_mode,
}
use pi_musubi_core.Proof.Texts.{trimmed_optional, fallback_operator_pin}
use pi_musubi_core.Proof.Digest.{Bytes, as_bytes, digest_parts, hmac_sha256_matches}
use pi_musubi_core.Proof.Keys.{
  key_status_active, key_status_draining, key_status_revoked, display_code_valid_for_key,
}
use pi_musubi_core.Proof.Challenge.{
  challenge_status_expired, challenge_status_quarantined, max_challenge_failed_attempts,
}
use pi_musubi_core.Proof.Start.{is_some}
use pi_musubi_core.Proof.Verify.{
  VerificationResult, verified, rejected, quarantined, no_charge, charge, risk_requires_quarantine,
  is_over, is_after, differs,
}

-- `let Some(a) = option else { return … }`, and a test with an early return.
unfoldable pub let_else {ℓ κ} : {A : Type ℓ} {B : Type κ} → Option A → B → (A → B) → B
let_else none refused rest = refused
let_else (some a) refused rest = rest a

infix 1 when◌return◌otherwise◌
unfoldable pub when◌return◌otherwise◌ {ℓ} : {B : Type ℓ} → Bool → B → B → B
when true return refused otherwise rest = refused
when false return refused otherwise rest = rest

abbrev pub put_challenge : ProofState → Str → VenueChallengeRecord → ProofState
put_challenge store id challenge = record store {
  venue_challenges_by_id = insert id challenge store.venue_challenges_by_id;
}

abbrev pub expire : VenueChallengeRecord → VenueChallengeRecord
expire challenge = record challenge { status = challenge_status_expired }

module _ (crates : Crates) (input : ProofEnvelopeInput) (received_at : Instant)
    (flags : List String) where
  unfoldable pub verify_pin_hash :
      Str → VenueChallengeRecord → Str → Option Bytes → VerificationResult
  unfolding hmac_sha256_matches when◌return◌otherwise◌
  verify_pin_hash server_secret challenge pin none =
      no_charge flags (rejected "operator_pin_invalid")
  verify_pin_hash server_secret challenge pin (some expected_pin_hash) =
      when not (
        hmac_sha256_matches crates (as_bytes server_secret)
          (codes "operator-pin" ∷ challenge.challenge_id ∷ pin ∷ []) expected_pin_hash)
      return charge flags (rejected "operator_pin_invalid")
      otherwise no_charge (flags ++ "operator_fallback" ∷ []) verified

  unfoldable pub verify_operator_pin : Str → VenueChallengeRecord → VerificationResult
  unfolding trimmed_optional verify_pin_hash let_else when◌return◌otherwise◌
  verify_operator_pin server_secret challenge =
      when not (challenge.fallback_mode == fallback_operator_pin)
      return no_charge flags (rejected "operator_pin_invalid")
      otherwise let_else (trimmed_optional input.operator_pin)
          (no_charge flags (rejected "operator_pin_invalid"))
          (λ pin.
            when is_over received_at challenge.operator_pin_expires_at
            return no_charge flags (rejected "expired")
            otherwise verify_pin_hash server_secret challenge pin challenge.operator_pin_hash)

  unfoldable pub verify_with_key : VenueKeyVersionRecord → Str → VerificationResult
  unfolding display_code_valid_for_key when◌return◌otherwise◌
  verify_with_key key display_code =
      when key.status == key_status_revoked
      return no_charge flags (rejected "key_revoked")
      otherwise when not (key.status == key_status_active)
          && not (key.status == key_status_draining)
      return no_charge flags (rejected "invalid_code")
      otherwise when ltb received_at key.not_before || is_after received_at key.not_after
      return no_charge flags (rejected "invalid_code")
      otherwise when not (display_code_valid_for_key crates key display_code received_at)
      return charge flags (rejected "invalid_code")
      otherwise no_charge flags verified

  unfoldable pub verify_display_code : ProofState → VenueChallengeRecord → Str → VerificationResult
  unfolding trimmed_optional get verify_with_key let_else when◌return◌otherwise◌
  verify_display_code store challenge venue_id =
      let_else (trimmed_optional input.display_code) (no_charge flags (rejected "malformed"))
        (λ display_code.
          when differs challenge.venue_key_version input.key_version
          return no_charge flags (rejected "key_version_mismatch")
          otherwise let_else
              (get (challenge.realm_id, (venue_id, challenge.venue_key_version))
                store.venue_key_versions)
              (no_charge flags (rejected "invalid_code")) (λ key. verify_with_key key display_code))

  unfoldable pub verify_presence :
      ProofState → SubmissionFallbackMode → VenueChallengeRecord → Str → VerificationResult
  unfolding verify_operator_pin verify_display_code
  verify_presence store operator_pin_mode challenge venue_id =
      verify_operator_pin store.server_secret challenge
  verify_presence store none_mode challenge venue_id = verify_display_code store challenge venue_id

  -- The guards on a challenge that is there.
  unfoldable pub verify_challenge :
      ProofState
      → SubmissionFallbackMode
      → Str
      → Str
      → Str
      → VenueChallengeRecord
      → ProofState × VerificationResult
  unfolding digest_parts risk_requires_quarantine verify_presence insert when◌return◌otherwise◌
  verify_challenge store mode challenge_id venue_id client_nonce challenge =
      when not (challenge.subject_account_id == input.subject_account_id)
      return (store, no_charge flags (quarantined "subject_mismatch"))
      otherwise when not (challenge.venue_id == venue_id)
      return (store, no_charge flags (quarantined "venue_mismatch"))
      otherwise when is_some challenge.consumed_at
      return (store, no_charge flags (rejected "replay"))
      otherwise when (challenge.status == challenge_status_quarantined)
          || leb max_challenge_failed_attempts challenge.failed_attempt_count
      return (store, no_charge flags (quarantined "attempt_limit_exceeded"))
      otherwise when ltb challenge.expires_at received_at
      return (
        put_challenge store challenge_id (expire challenge),
        no_charge flags (rejected "expired"),
      )
      otherwise when not (
          challenge.client_nonce_hash
          == digest_parts crates (codes "client-nonce" ∷ challenge_id ∷ client_nonce ∷ []))
      return (store, no_charge flags (rejected "malformed"))
      otherwise when risk_requires_quarantine flags
      return (store, no_charge flags (quarantined "risk_flagged"))
      otherwise (store, verify_presence store mode challenge venue_id)

  unfoldable pub verify_envelope :
      ProofState → SubmissionFallbackMode → Option Str → ProofState × VerificationResult
  unfolding trimmed_optional get verify_challenge let_else
  verify_envelope store mode (some replayed) = (store, no_charge flags (rejected "replay"))
  verify_envelope store mode none =
      let_else (trimmed_optional input.challenge_id) (store, no_charge flags (rejected "malformed"))
        (λ challenge_id.
          let_else (trimmed_optional input.venue_id) (store, no_charge flags (rejected "malformed"))
            (λ venue_id.
              let_else (trimmed_optional input.client_nonce)
                (store, no_charge flags (rejected "malformed"))
                (λ client_nonce.
                  let_else (get challenge_id store.venue_challenges_by_id)
                    (store, no_charge flags (rejected "challenge_not_found"))
                    (λ challenge.
                      verify_challenge store mode challenge_id venue_id client_nonce challenge))))
