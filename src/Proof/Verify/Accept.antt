-- ===== src/Proof/Verify/Accept.antt =====
-- apps/backend/src/services/proof.rs: when `verify_envelope` accepts.
use pi_musubi_core.Prelude.{
  ◌≤◌, ◌<◌, ◌≡◌, ◌↔◌, refl, String, true, false, not, ◌||◌, Option, none, some, List, [], ◌∷◌, leb,
  ltb, ◌==◌, nat_eq, list_eq, string_eq, int_eq, pair_eq, clash,
}
use pi_musubi_core.Prelude.Text.{codes}
use pi_musubi_core.HashMap.{get}
use pi_musubi_core.Proof.State.{Str, Instant, Crates, ProofState, VenueChallengeRecord}
use pi_musubi_core.Proof.Messages.{ProofEnvelopeInput, SubmissionFallbackMode}
use pi_musubi_core.Proof.Texts.{trimmed_optional}
use pi_musubi_core.Proof.Digest.{digest_parts}
use pi_musubi_core.Proof.Challenge.{challenge_status_quarantined, max_challenge_failed_attempts}
use pi_musubi_core.Proof.Start.{is_some}
use pi_musubi_core.Proof.Verify.{risk_requires_quarantine}
use pi_musubi_core.Proof.Verify.Chain.{verify_challenge, verify_envelope}
use pi_musubi_core.Proof.Attempt.{is_verified}
use pi_musubi_core.Proof.Verify.Guards.{
  AcceptsNow, refuses_now, not-false, not-true, or_left, below_limit, not_late, in_time_of, may_try,
  open_of, passed, pass, given, give,
}
use pi_musubi_core.Proof.Verify.Presence.{PresenceHolds, verify_presence-Accepts}

module _ (crates : Crates) (input : ProofEnvelopeInput) (received_at : Instant)
    (flags : List String) where
  -- The challenge that an envelope redeems, and what the envelope shows.
  pub record Redeems (store : ProofState) (mode : SubmissionFallbackMode) : Type 0 where
    pub challenge_id : Str
    pub given_challenge_id : trimmed_optional input.challenge_id ≡ some challenge_id
    pub venue_id : Str
    pub given_venue_id : trimmed_optional input.venue_id ≡ some venue_id
    pub client_nonce : Str
    pub given_client_nonce : trimmed_optional input.client_nonce ≡ some client_nonce
    pub challenge : VenueChallengeRecord
    pub found : get challenge_id store.venue_challenges_by_id ≡ some challenge
    pub subject : (challenge.subject_account_id == input.subject_account_id) ≡ true
    pub venue : (challenge.venue_id == venue_id) ≡ true
    pub unconsumed : is_some challenge.consumed_at ≡ false
    pub not_closed : (challenge.status == challenge_status_quarantined) ≡ false
    pub attempts_left : challenge.failed_attempt_count < max_challenge_failed_attempts
    pub in_time : received_at ≤ challenge.expires_at
    pub nonce :
        (challenge.client_nonce_hash
          == digest_parts crates (codes "client-nonce" ∷ challenge_id ∷ client_nonce ∷ []))
        ≡ true
    pub no_grave_risk : risk_requires_quarantine flags ≡ false
    pub presence : PresenceHolds crates input received_at flags store mode challenge venue_id

  verify_challenge-Accepts :
      (store : ProofState) (mode : SubmissionFallbackMode) (id venue nonce : Str)
      (g : trimmed_optional input.challenge_id ≡ some id)
      (gv : trimmed_optional input.venue_id ≡ some venue)
      (gn : trimmed_optional input.client_nonce ≡ some nonce) (challenge : VenueChallengeRecord)
      (f : get id store.venue_challenges_by_id ≡ some challenge)
      → AcceptsNow
          (verify_challenge crates input received_at flags store mode id venue nonce challenge)
      → Redeems store mode
  unfolding verify_challenge
  verify_challenge-Accepts store mode id venue nonce g gv gn challenge f h =
      let (a, h) =
        passed AcceptsNow (not (challenge.subject_account_id == input.subject_account_id)) _ _
          (refuses_now _ refl) h in
      let (b, h) =
        passed AcceptsNow (not (challenge.venue_id == venue)) _ _ (refuses_now _ refl) h in
      let (c, h) = passed AcceptsNow (is_some challenge.consumed_at) _ _ (refuses_now _ refl) h in
      let (d, h) =
        passed AcceptsNow
          ((challenge.status == challenge_status_quarantined)
            || leb max_challenge_failed_attempts challenge.failed_attempt_count)
          _ _ (refuses_now _ refl) h in
      let (t, h) =
        passed AcceptsNow (ltb challenge.expires_at received_at) _ _ (refuses_now _ refl) h in
      let (n, h) =
        passed AcceptsNow
          (not (
            challenge.client_nonce_hash
            == digest_parts crates (codes "client-nonce" ∷ id ∷ nonce ∷ [])))
          _ _ (refuses_now _ refl) h in
      let (r, h) = passed AcceptsNow (risk_requires_quarantine flags) _ _ (refuses_now _ refl) h in
      record {
        challenge_id = id;
        given_challenge_id = g;
        venue_id = venue;
        given_venue_id = gv;
        client_nonce = nonce;
        given_client_nonce = gn;
        challenge = challenge;
        found = f;
        subject = not-false _ a;
        venue = not-false _ b;
        unconsumed = c;
        not_closed = or_left _ _ d;
        attempts_left = below_limit challenge.failed_attempt_count (open_of _ _ d);
        in_time = not_late received_at challenge.expires_at t;
        nonce = not-false _ n;
        no_grave_risk = r;
        presence =
            (verify_presence-Accepts crates input received_at flags store mode challenge venue).0
              (record { decided = h.decided });
      }

  -- An envelope is accepted exactly when its replay key is new, it names a challenge that is there,
  -- for the subject and the venue of that challenge, the challenge is neither consumed nor
  -- quarantined nor out of attempts nor expired, the nonce is the challenge's, no grave risk flag
  -- is raised, and the envelope shows a display code that the challenge's key admits or, in the
  -- other mode, the PIN that was issued with the challenge and is not over.
  pub verify_envelope-Accepts :
      (store : ProofState) (mode : SubmissionFallbackMode) (replayed : Option Str)
      → (is_verified (verify_envelope crates input received_at flags store mode replayed).1.decision
          ≡ true)
        ↔ ((replayed ≡ none) × Redeems store mode)
  unfolding verify_envelope verify_challenge
  verify_envelope-Accepts store mode (some id) =
      ((λ h. absurd (clash h refl)), (λ (e, c). absurd (cc)))
  verify_envelope-Accepts store mode none = (
    (λ h.
        let h : AcceptsNow (verify_envelope crates input received_at flags store mode none) =
          record { decided = h } in
        let (id, (g, h)) =
          given AcceptsNow (trimmed_optional input.challenge_id) _ _ (refuses_now _ refl) h in
        let (venue, (gv, h)) =
          given AcceptsNow (trimmed_optional input.venue_id) _ _ (refuses_now _ refl) h in
        let (nonce, (gn, h)) =
          given AcceptsNow (trimmed_optional input.client_nonce) _ _ (refuses_now _ refl) h in
        let (challenge, (f, h)) =
          given AcceptsNow (get id store.venue_challenges_by_id) _ _ (refuses_now _ refl) h in
        (refl, verify_challenge-Accepts store mode id venue nonce g gv gn challenge f h)),
    (λ (e, c).
        (give AcceptsNow (trimmed_optional input.challenge_id) _ _ c.challenge_id
          c.given_challenge_id
          (give AcceptsNow (trimmed_optional input.venue_id) _ _ c.venue_id c.given_venue_id (
            give AcceptsNow (trimmed_optional input.client_nonce) _ _ c.client_nonce
              c.given_client_nonce
              (give AcceptsNow (get c.challenge_id store.venue_challenges_by_id) _ _ c.challenge
                c.found
                (pass AcceptsNow (not (c.challenge.subject_account_id == input.subject_account_id))
                  _ _ (not-true _ c.subject)
                  (pass AcceptsNow (not (c.challenge.venue_id == c.venue_id)) _ _
                    (not-true _ c.venue)
                    (pass AcceptsNow (is_some c.challenge.consumed_at) _ _ c.unconsumed (
                      pass AcceptsNow
                        ((c.challenge.status == challenge_status_quarantined)
                          || leb max_challenge_failed_attempts c.challenge.failed_attempt_count)
                        _ _
                        (may_try _ c.challenge.failed_attempt_count c.not_closed c.attempts_left)
                        (pass AcceptsNow (ltb c.challenge.expires_at received_at) _ _
                          (in_time_of received_at c.challenge.expires_at c.in_time)
                          (pass AcceptsNow
                            (not (
                              c.challenge.client_nonce_hash
                              == digest_parts crates
                                  (codes "client-nonce" ∷ c.challenge_id ∷ c.client_nonce ∷ [])))
                            _ _ (not-true _ c.nonce)
                            (pass AcceptsNow (risk_requires_quarantine flags) _ _ c.no_grave_risk
                              (record {
                                decided =
                                    ((verify_presence-Accepts crates input received_at flags store
                                        mode c.challenge c.venue_id).1
                                      c.presence).decided;
                              })))))))))))).decided),
  )
