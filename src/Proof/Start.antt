-- ===== src/Proof/Start.antt =====
-- apps/backend/src/services/proof.rs: `start_proof_challenge`. The identifiers that the code draws
-- are arguments. The state after the call stands beside its result, since an error after the first
-- pruning leaves a changed state.
pub mod Steps
pub mod Shape
pub mod Pins
pub mod Capacity
pub mod Issued
use pi_musubi_core.Prelude.{
  ℕ, ◌≡◌, String, Bool, true, false, Option, none, some, List, [], ◌∷◌, ◌++◌, Result, ok, err, leb,
  if◌then◌else◌, ◌==◌, nat_eq, list_eq, string_eq,
}
use pi_musubi_core.Prelude.Int.{ℤ}
use pi_musubi_core.Prelude.Text.{codes}
use pi_musubi_core.HashMap.{insert}
use pi_musubi_core.Proof.State.{
  Str, Instant, Crates, ProofState, VenueChallengeRecord, OperatorPinAuditRecord,
}
use pi_musubi_core.Proof.Messages.{
  StartProofChallengeInput, StartProofChallengeServiceOutcome, OperatorPinDelivery, ProofError,
  bad_request,
}
use pi_musubi_core.Proof.Texts.{
  required_trimmed, normalize_fallback_mode, fallback_operator_pin, unwrap_or,
}
use pi_musubi_core.Proof.Digest.{Bytes, digest_parts, random_numeric_code, operator_pin_hash}
use pi_musubi_core.Proof.Keys.{ensure_active_venue_key}
use pi_musubi_core.Proof.Challenge.{
  challenge_status_issued, challenge_ttl_seconds, operator_pin_ttl_seconds,
  operator_pin_rate_limit_per_minute, max_active_proof_challenges_per_subject,
  max_active_proof_challenges, active_challenge_count, active_challenge_count_for_subject,
  operator_pin_issuance_count,
}
use pi_musubi_core.Proof.Prune.{prune_ephemeral_proof_state}

infixl 5 ◌>>=◌
abbrev pub ◌>>=◌ : {E A B : Type 0} → Result E A → (A → Result E B) → Result E B
err e >>= f = err e
ok a >>= f = f a

-- The texts that `Uuid::new_v4` makes in one call.
pub record StartIds : Type 0 where
  pub challenge_id : Str
  pub client_nonce : Str
  pub first_pin_seed : Str
  pub second_pin_seed : Str
  pub audit_id : Str

pub record StartRequest : Type 0 where
  pub venue_id : Str
  pub realm_id : Str
  pub subject_account_id : Str
  pub fallback_mode : String

unfoldable pub start_request : StartProofChallengeInput → Result ProofError StartRequest
unfolding required_trimmed normalize_fallback_mode
start_request input = do
  venue_id ← required_trimmed input.venue_id "venue_id is required"
  realm_id ← required_trimmed input.realm_id "realm_id is required"
  subject_account_id ← required_trimmed input.subject_account_id "subject_account_id is required"
  fallback_mode ← normalize_fallback_mode input.fallback_mode
  ok (record {
    venue_id = venue_id;
    realm_id = realm_id;
    subject_account_id = subject_account_id;
    fallback_mode = fallback_mode;
  })

-- The PIN, its hash, its end and the operator who reads it out.
pub record IssuedPin : Type 0 where
  pub pin : Str
  pub pin_hash : Bytes
  pub pin_expires_at : Instant
  pub operator_id : Str

abbrev pub option_map {ℓ κ} : {A : Type ℓ} {B : Type κ} → (A → B) → Option A → Option B
option_map f none = none
option_map f (some a) = some (f a)

abbrev pub is_some {ℓ} : {A : Type ℓ} → Option A → Bool
is_some none = false
is_some (some a) = true

module _ (crates : Crates) (request : StartRequest) (ids : StartIds) (now : Instant) where
  unfoldable pub issued_challenge : ℤ → Option IssuedPin → VenueChallengeRecord
  unfolding digest_parts
  issued_challenge key_version pin = record {
    challenge_id = ids.challenge_id;
    subject_account_id = request.subject_account_id;
    venue_id = request.venue_id;
    realm_id = request.realm_id;
    client_nonce_hash =
        digest_parts crates (codes "client-nonce" ∷ ids.challenge_id ∷ ids.client_nonce ∷ []);
    issued_at = now;
    expires_at = crates.add_seconds now challenge_ttl_seconds;
    consumed_at = none;
    fallback_mode = request.fallback_mode;
    operator_pin_hash = option_map (λ p. p.pin_hash) pin;
    operator_pin_expires_at = option_map (λ p. p.pin_expires_at) pin;
    operator_id = option_map (λ p. p.operator_id) pin;
    venue_key_version = key_version;
    failed_attempt_count = 0;
    status = challenge_status_issued;
  }

  abbrev pub delivery : IssuedPin → OperatorPinDelivery
  delivery p = record {
    challenge_id = ids.challenge_id;
    operator_id = p.operator_id;
    venue_id = request.venue_id;
    realm_id = request.realm_id;
    pin = p.pin;
    expires_at = p.pin_expires_at;
  }

  abbrev pub start_outcome : ℤ → Option IssuedPin → StartProofChallengeServiceOutcome
  start_outcome key_version pin = record {
    client = record {
      challenge_id = ids.challenge_id;
      venue_id = request.venue_id;
      realm_id = request.realm_id;
      expires_at = crates.add_seconds now challenge_ttl_seconds;
      client_nonce = ids.client_nonce;
      allowed_fallback_mode = request.fallback_mode;
      venue_key_version = key_version;
      operator_pin_issued = is_some pin;
    };
    operator_delivery = option_map delivery pin;
  }

  -- The challenge is stored and the state pruned once more.
  unfoldable pub store_challenge :
      ProofState
      → ℤ
      → Option IssuedPin
      → ProofState × Result ProofError StartProofChallengeServiceOutcome
  unfolding issued_challenge insert prune_ephemeral_proof_state
  store_challenge store key_version pin = (
    prune_ephemeral_proof_state crates
        (record store {
          venue_challenges_by_id =
              insert ids.challenge_id (issued_challenge key_version pin)
                store.venue_challenges_by_id;
        })
        now,
    ok (start_outcome key_version pin),
  )

  unfoldable pub issued_pin : Str → Str → IssuedPin
  unfolding random_numeric_code operator_pin_hash
  issued_pin server_secret operator_id =
      let pin = random_numeric_code crates ids.first_pin_seed ids.second_pin_seed in
      record {
        pin = pin;
        pin_hash = operator_pin_hash crates server_secret ids.challenge_id pin;
        pin_expires_at = crates.add_seconds now operator_pin_ttl_seconds;
        operator_id = operator_id;
      }

  abbrev pub audit_of : IssuedPin → OperatorPinAuditRecord
  audit_of p = record {
    audit_id = ids.audit_id;
    challenge_id = ids.challenge_id;
    operator_id = p.operator_id;
    venue_id = request.venue_id;
    realm_id = request.realm_id;
    issued_at = now;
    expires_at = p.pin_expires_at;
    pin_hash = p.pin_hash;
  }

  abbrev pub push_audit : ProofState → IssuedPin → ProofState
  push_audit store p = record store {
    operator_pin_audits = store.operator_pin_audits ++ audit_of p ∷ [];
  }

  unfoldable pub issue_pin :
      ProofState
      → ℤ
      → Result ProofError Str
      → ProofState × Result ProofError StartProofChallengeServiceOutcome
  unfolding operator_pin_issuance_count issued_pin store_challenge
  issue_pin store key_version (err e) = (store, err e)
  issue_pin store key_version (ok operator_id) =
      if leb operator_pin_rate_limit_per_minute
        (operator_pin_issuance_count crates store request.realm_id request.venue_id operator_id now)
      then (store, err (bad_request "operator_pin fallback rate limit exceeded"))
      else let p = issued_pin store.server_secret operator_id in
        store_challenge (push_audit store p) key_version (some p)

  unfoldable pub issue_challenge :
      ProofState → Option Str → ProofState × Result ProofError StartProofChallengeServiceOutcome
  unfolding ensure_active_venue_key required_trimmed issue_pin store_challenge
  issue_challenge store operator_id =
      let keyed = ensure_active_venue_key crates store request.realm_id request.venue_id now in
      if request.fallback_mode == fallback_operator_pin
      then issue_pin keyed.0 keyed.1 (
          required_trimmed (unwrap_or operator_id [])
            "operator_id is required for operator_pin fallback")
      else store_challenge keyed.0 keyed.1 none

  -- The limits, on a state that is pruned.
  unfoldable pub start_pruned :
      ProofState → Option Str → ProofState × Result ProofError StartProofChallengeServiceOutcome
  unfolding active_challenge_count_for_subject active_challenge_count issue_challenge
  start_pruned store operator_id =
      if leb max_active_proof_challenges_per_subject
        (active_challenge_count_for_subject store request.subject_account_id now)
      then (store, err (bad_request "active proof challenge limit exceeded"))
      else if leb max_active_proof_challenges (active_challenge_count store now)
      then (store, err (bad_request "proof challenge capacity exceeded"))
      else issue_challenge store operator_id

unfoldable pub start_proof_challenge :
    Crates
    → StartProofChallengeInput
    → StartIds
    → Instant
    → ProofState
    → ProofState × Result ProofError StartProofChallengeServiceOutcome
unfolding start_request start_pruned prune_ephemeral_proof_state
start_proof_challenge crates input ids now store = elim (start_request input) [
  | err e ↦ (store, err e)
  | ok request ↦
      start_pruned crates request ids now (prune_ephemeral_proof_state crates store now)
        input.operator_id
]
