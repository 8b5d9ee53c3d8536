-- ===== src/Proof/Verify/Presence.antt =====
-- apps/backend/src/services/proof.rs: when a display code or an operator's PIN is accepted.
use pi_musubi_core.Prelude.{
  ◌≤◌, ◌≡◌, ◌↔◌, refl, sym, String, true, false, not, ◌&&◌, ◌||◌, Option, none, some, List, [], ◌∷◌,
  ltb, ◌==◌, nat_eq, list_eq, string_eq, int_eq, pair_eq, subst, some_injective,
}
use pi_musubi_core.Prelude.Text.{codes}
use pi_musubi_core.HashMap.{get}
use pi_musubi_core.Proof.State.{
  Str, Instant, Crates, ProofState, VenueChallengeRecord, VenueKeyVersionRecord,
}
use pi_musubi_core.Proof.Messages.{
  ProofEnvelopeInput, SubmissionFallbackMode, none_mode, operator_pin_mode,
}
use pi_musubi_core.Proof.Texts.{trimmed_optional, fallback_operator_pin}
use pi_musubi_core.Proof.Digest.{Bytes, as_bytes, hmac_sha256_matches}
use pi_musubi_core.Proof.Keys.{
  key_status_active, key_status_draining, key_status_revoked, display_code_valid_for_key,
}
use pi_musubi_core.Proof.Verify.{is_over, is_after, differs}
use pi_musubi_core.Proof.Verify.Chain.{
  verify_pin_hash, verify_operator_pin, verify_with_key, verify_display_code, verify_presence,
}
use pi_musubi_core.Proof.Verify.Guards.{
  Accepts, refuses, not-false, not-true, either, neither, in_force, not_revoked, begun_of, open_of,
  passed, pass, given, give,
}

module _ (crates : Crates) (input : ProofEnvelopeInput) (received_at : Instant)
    (flags : List String) where
  -- A display code of the key in this window or the one before, while the key is in force.
  pub record KeyAdmits (key : VenueKeyVersionRecord) (display_code : Str) : Type 0 where
    pub usable : ((key.status == key_status_active) || (key.status == key_status_draining)) ≡ true
    pub begun : key.not_before ≤ received_at
    pub not_ended : is_after received_at key.not_after ≡ false
    pub code : display_code_valid_for_key crates key display_code received_at ≡ true

  verify_with_key-Accepts :
      (key : VenueKeyVersionRecord) (display_code : Str)
      → Accepts (verify_with_key crates input received_at flags key display_code)
        ↔ KeyAdmits key display_code
  unfolding verify_with_key
  verify_with_key-Accepts key display_code = (
    (λ h.
        let (a, h) = passed Accepts (key.status == key_status_revoked) _ _ (refuses _ refl) h in
        let (b, h) =
          passed Accepts
            (not (key.status == key_status_active) && not (key.status == key_status_draining)) _ _
            (refuses _ refl) h in
        let (c, h) =
          passed Accepts (ltb received_at key.not_before || is_after received_at key.not_after) _ _
            (refuses _ refl) h in
        let (d, h) =
          passed Accepts (not (display_code_valid_for_key crates key display_code received_at)) _ _
            (refuses _ refl) h in
        record {
          usable = either _ _ b;
          begun = begun_of key.not_before _ received_at c;
          not_ended = open_of _ _ c;
          code = not-false _ d;
        }),
    (λ k. pass Accepts (key.status == key_status_revoked) _ _ (not_revoked key.status k.usable) (
        pass Accepts
          (not (key.status == key_status_active) && not (key.status == key_status_draining)) _ _
          (neither _ _ k.usable)
          (pass Accepts (ltb received_at key.not_before || is_after received_at key.not_after) _ _
            (in_force key.not_before _ received_at k.begun k.not_ended)
            (pass Accepts (not (display_code_valid_for_key crates key display_code received_at)) _ _
              (not-true _ k.code) (record { decided = refl }))))),
  )

  -- The display code is one that the challenge's key admits.
  pub record CodeHolds (store : ProofState) (challenge : VenueChallengeRecord) (venue_id : Str)
      : Type 0 where
    pub display_code : Str
    pub given_code : trimmed_optional input.display_code ≡ some display_code
    pub version : differs challenge.venue_key_version input.key_version ≡ false
    pub key : VenueKeyVersionRecord
    pub found_key :
        get (challenge.realm_id, (venue_id, challenge.venue_key_version)) store.venue_key_versions
        ≡ some key
    pub admitted : KeyAdmits key display_code

  verify_display_code-Accepts :
      (store : ProofState) (challenge : VenueChallengeRecord) (venue_id : Str)
      → Accepts (verify_display_code crates input received_at flags store challenge venue_id)
        ↔ CodeHolds store challenge venue_id
  unfolding verify_display_code
  verify_display_code-Accepts store challenge venue_id = (
    (λ h.
        let (code, (g, h)) =
          given Accepts (trimmed_optional input.display_code) _ _ (refuses _ refl) h in
        let (v, h) =
          passed Accepts (differs challenge.venue_key_version input.key_version) _ _
            (refuses _ refl) h in
        let (key, (k, h)) =
          given Accepts
            (get (challenge.realm_id, (venue_id, challenge.venue_key_version))
              store.venue_key_versions)
            _ _ (refuses _ refl) h in
        record {
          display_code = code;
          given_code = g;
          version = v;
          key = key;
          found_key = k;
          admitted = (verify_with_key-Accepts key code).0 h;
        }),
    (λ c. give Accepts (trimmed_optional input.display_code) _ _ c.display_code c.given_code (
        pass Accepts (differs challenge.venue_key_version input.key_version) _ _ c.version (
          give Accepts
            (get (challenge.realm_id, (venue_id, challenge.venue_key_version))
              store.venue_key_versions)
            _ _ c.key c.found_key ((verify_with_key-Accepts c.key c.display_code).1 c.admitted)))),
  )

  -- The PIN is the one that was issued with the challenge, and it is not over.
  pub record PinHolds (server_secret : Str) (challenge : VenueChallengeRecord) : Type 0 where
    pub mode : (challenge.fallback_mode == fallback_operator_pin) ≡ true
    pub pin : Str
    pub given_pin : trimmed_optional input.operator_pin ≡ some pin
    pub not_over : is_over received_at challenge.operator_pin_expires_at ≡ false
    pub pin_hash : Bytes
    pub issued_pin_hash : challenge.operator_pin_hash ≡ some pin_hash
    pub matches :
        hmac_sha256_matches crates
          (as_bytes server_secret)
          (codes "operator-pin" ∷ challenge.challenge_id ∷ pin ∷ [])
          pin_hash
        ≡ true

  verify_pin_hash-Accepts :
      (server_secret : Str) (challenge : VenueChallengeRecord) (pin : Str) (o : Option Bytes)
      → Accepts (verify_pin_hash crates input received_at flags server_secret challenge pin o) ↔ (
          (hash : Bytes) × ((o ≡ some hash)
            × (hmac_sha256_matches crates
                  (as_bytes server_secret)
                  (codes "operator-pin" ∷ challenge.challenge_id ∷ pin ∷ [])
                  hash
                ≡ true)))
  unfolding verify_pin_hash
  verify_pin_hash-Accepts server_secret challenge pin none =
      ((λ h. absurd (refuses _ refl h)), (λ (hash, (e, m)). absurd (cc)))
  verify_pin_hash-Accepts server_secret challenge pin (some hash) = (
    (λ h.
        let (a, h) =
          passed Accepts
            (not (
              hmac_sha256_matches crates (as_bytes server_secret)
                (codes "operator-pin" ∷ challenge.challenge_id ∷ pin ∷ []) hash))
            _ _ (refuses _ refl) h in
        (hash, (refl, not-false _ a))),
    (λ (other, (e, m)).
        pass Accepts
          (not (
            hmac_sha256_matches crates (as_bytes server_secret)
              (codes "operator-pin" ∷ challenge.challenge_id ∷ pin ∷ []) hash))
          _ _
          (not-true _ (
            subst
              (λ x.
                hmac_sha256_matches crates (as_bytes server_secret)
                  (codes "operator-pin" ∷ challenge.challenge_id ∷ pin ∷ []) x
                ≡ true)
              (sym (some_injective e)) m))
          (record { decided = refl })),
  )

  verify_operator_pin-Accepts :
      (server_secret : Str) (challenge : VenueChallengeRecord)
      → Accepts (verify_operator_pin crates input received_at flags server_secret challenge)
        ↔ PinHolds server_secret challenge
  unfolding verify_operator_pin
  verify_operator_pin-Accepts server_secret challenge = (
    (λ h.
        let (a, h) =
          passed Accepts (not (challenge.fallback_mode == fallback_operator_pin)) _ _
            (refuses _ refl) h in
        let (pin, (g, h)) =
          given Accepts (trimmed_optional input.operator_pin) _ _ (refuses _ refl) h in
        let (b, h) =
          passed Accepts (is_over received_at challenge.operator_pin_expires_at) _ _
            (refuses _ refl) h in
        let (hash, (e, m)) =
          (verify_pin_hash-Accepts server_secret challenge pin challenge.operator_pin_hash).0 h in
        record {
          mode = not-false _ a;
          pin = pin;
          given_pin = g;
          not_over = b;
          pin_hash = hash;
          issued_pin_hash = e;
          matches = m;
        }),
    (λ c.
        pass Accepts (not (challenge.fallback_mode == fallback_operator_pin)) _ _
          (not-true _ c.mode)
          (give Accepts (trimmed_optional input.operator_pin) _ _ c.pin c.given_pin (
            pass Accepts (is_over received_at challenge.operator_pin_expires_at) _ _ c.not_over (
              (verify_pin_hash-Accepts server_secret challenge c.pin challenge.operator_pin_hash).1
                (c.pin_hash, (c.issued_pin_hash, c.matches)))))),
  )

  abbrev pub PresenceHolds :
      ProofState → SubmissionFallbackMode → VenueChallengeRecord → Str → Type 0
  PresenceHolds store none_mode challenge venue_id = CodeHolds store challenge venue_id
  PresenceHolds store operator_pin_mode challenge venue_id = PinHolds store.server_secret challenge

  pub verify_presence-Accepts :
      (store : ProofState) (mode : SubmissionFallbackMode) (challenge : VenueChallengeRecord)
      (venue_id : Str)
      → Accepts (verify_presence crates input received_at flags store mode challenge venue_id)
        ↔ PresenceHolds store mode challenge venue_id
  unfolding verify_presence
  verify_presence-Accepts store none_mode challenge venue_id =
      verify_display_code-Accepts store challenge venue_id
  verify_presence-Accepts store operator_pin_mode challenge venue_id =
      verify_operator_pin-Accepts store.server_secret challenge
