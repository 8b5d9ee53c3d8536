-- ===== src/Proof/Invariant.antt =====
-- apps/backend/src/services/proof.rs: what holds of the state after any sequence of calls.
pub mod Once
pub mod Redeemable
pub mod Capacity
pub mod Records
pub mod Handed
use pi_musubi_core.Prelude.{
  ℕ, ◌+◌, ◌≤◌, ◌<◌, ◌≡◌, refl, sym, subst, ◌∙◌, String, Bool, true, false, not, Option, none, some,
  List, [], arith, inl, inr, Bool-cases, clash, some_injective, ◌==◌, leb, nat_eq, list_eq,
  list_beq_iff, pair_eq, int_eq, string_eq, if◌then◌else◌,
}
use pi_musubi_core.Prelude.Int.{ℤ}
use pi_musubi_core.HashMap.{get, insert, contains_key, Distinct}
use pi_musubi_core.HashMap.Laws.{get-insert, Distinct-insert}
use pi_musubi_core.Proof.State.{
  Str, Instant, Crates, ProofState, VenueChallengeRecord, with_server_secret,
}
use pi_musubi_core.Proof.Messages.{StartProofChallengeInput, ProofEnvelopeInput}
use pi_musubi_core.Proof.Keys.{ensure_active_venue_key}
use pi_musubi_core.Proof.Keys.Prune.{key_of, key_at}
use pi_musubi_core.Proof.Keys.Present.{HasKeys}
use pi_musubi_core.Proof.Keys.Ensure.{ensure_cases, ensure-HasKeys}
use pi_musubi_core.Proof.Challenge.{challenge_status_issued, challenge_status_quarantined}
use pi_musubi_core.Proof.Prune.{prune_ephemeral_proof_state}
use pi_musubi_core.Proof.Prune.Challenges.{Each, prune-Each}
use pi_musubi_core.Proof.Prune.Valid.{IsKeyed, prune-IsKeyed}
use pi_musubi_core.Proof.Verify.Chain.{put_challenge}
use pi_musubi_core.Proof.Start.{
  StartIds, StartRequest, IssuedPin, issued_challenge, push_audit, start_proof_challenge,
}
use pi_musubi_core.Proof.Start.Steps.{start-keeps}
use pi_musubi_core.Proof.Attempt.{charged}
use pi_musubi_core.Proof.Submit.{
  SubmitIds, submit_proof_envelope_at, submit_pruned, settle_submission, decide_submission,
  verify_submission, record_submission, record_verification,
}
use pi_musubi_core.Proof.Submit.Steps.{Change, settled-keeps}

pub insert-Each :
    (P : Str → VenueChallengeRecord → Type 0) (s : ProofState) (id : Str) (c : VenueChallengeRecord)
    → Each P s
    → P id c
    → Each P (put_challenge s id c)
insert-Each P s id c each at_id = λ j v g. elim (Bool-cases (id == j)) [
  | inl same ↦
      let e : c ≡ v = some_injective (ground (arith, get-insert id j c s.venue_challenges_by_id)) in
      subst (λ k. P k v) ((list_beq_iff id j).0 same) (subst (P id) e at_id)
  | inr other ↦ each j v (ground (arith, get-insert id j c s.venue_challenges_by_id))
]

-- Calls one after another, whatever their times. `Drawn` holds of the identifiers that the starts
-- draw for their challenges.
pub data Run (crates : Crates) (Drawn : Str → Type 0) (s : ProofState) : ProofState → Type 0 where
  here : Run crates Drawn s s
  started :
      {t : ProofState} (input : StartProofChallengeInput) (ids : StartIds) (now : Instant)
      → Run crates Drawn s t
      → Drawn ids.challenge_id
      → Run crates Drawn s (start_proof_challenge crates input ids now t).0
  submitted :
      {t : ProofState} (input : ProofEnvelopeInput) (ids : SubmitIds) (now : Instant)
      → Run crates Drawn s t
      → Run crates Drawn s (submit_proof_envelope_at crates input ids now t).0

-- A challenge under its own identifier, which is quarantined once three attempts have failed.
pub record IsChallenge (id : Str) (c : VenueChallengeRecord) : Type 0 where
  pub named : c.challenge_id ≡ id
  pub attempts : c.failed_attempt_count ≤ 3
  pub limit : c.failed_attempt_count ≡ 3 → c.status ≡ challenge_status_quarantined

pub record IsProofState (s : ProofState) : Type 0 where
  pub keyed : IsKeyed s
  pub challenges : Each IsChallenge s

pub issued_differs : ¬ (challenge_status_issued ≡ challenge_status_quarantined)
issued_differs h =
    clash ((string_eq.decides challenge_status_issued challenge_status_quarantined).1 h) refl

charged-IsChallenge :
    (id : Str) (c : VenueChallengeRecord)
    → (c.status == challenge_status_issued) ≡ true
    → IsChallenge id c
    → IsChallenge id (charged c)
charged-IsChallenge id c e v =
    let issued : c.status ≡ challenge_status_issued =
      (string_eq.decides c.status challenge_status_issued).0 e in
    let room : ¬ (c.failed_attempt_count ≡ 3) =
      λ full. issued_differs (sym issued ∙ v.limit full) in
    let bound = v.attempts in
    record { named = v.named; attempts = ground arith; limit = λ h. ground arith }

full : {n : ℕ} → n < 3 → ¬ (n ≡ 3)
full h e = omega arith

pub Change-IsChallenge :
    (id : Str) (c c' : VenueChallengeRecord) → Change c c' → IsChallenge id c → IsChallenge id c'
Change-IsChallenge id c _ (Change.expiring o) v = record {
  named = v.named;
  attempts = v.attempts;
  limit = λ h. absurd (full o.attempts_left h);
}
Change-IsChallenge id c _ (Change.charging e) v = charged-IsChallenge id c e v
Change-IsChallenge id c _ (Change.consuming at o) v = record {
  named = v.named;
  attempts = v.attempts;
  limit = λ h. absurd (full o.attempts_left h);
}

-- A change leaves the key of a challenge as it is.
Change-key_of : (c c' : VenueChallengeRecord) → Change c c' → key_of c' ≡ key_of c
Change-key_of c _ (Change.expiring o) = refl
Change-key_of c _ (Change.charging e) = refl
Change-key_of c _ (Change.consuming at o) = refl

pub put-IsKeyed :
    (s : ProofState) (id : Str) (c : VenueChallengeRecord)
    → contains_key (key_of c) s.venue_key_versions ≡ true
    → IsKeyed s
    → IsKeyed (put_challenge s id c)
put-IsKeyed s id c k v = record {
  distinct_challenges = Distinct-insert id c s.venue_challenges_by_id v.distinct_challenges;
  distinct_keys = v.distinct_keys;
  has_keys = record {
    of_challenges =
        insert-Each (λ _ x. contains_key (key_of x) s.venue_key_versions ≡ true) s id c
          v.has_keys.of_challenges k;
    of_active = v.has_keys.of_active;
  };
}

pub Change-IsKeyed :
    (s : ProofState) (id : Str) (c c' : VenueChallengeRecord)
    → get id s.venue_challenges_by_id ≡ some c
    → Change c c'
    → IsKeyed s
    → IsKeyed (put_challenge s id c')
Change-IsKeyed s id c c' g change v =
    put-IsKeyed s id c' (rw (Change-key_of c c' change) (v.has_keys.of_challenges id c g)) v

pub ensure-IsKeyed :
    (crates : Crates) (now : Instant) (s : ProofState) (realm venue : Str)
    → IsKeyed s
    → IsKeyed (ensure_active_venue_key crates s realm venue now).0
ensure-IsKeyed crates now s realm venue v = record {
  distinct_challenges =
      ensure_cases crates s realm venue now (λ r. Distinct r.0.venue_challenges_by_id)
        (λ _ _. v.distinct_challenges) (λ _. v.distinct_challenges);
  distinct_keys =
      ensure_cases crates s realm venue now (λ r. Distinct r.0.venue_key_versions)
        (λ _ _. v.distinct_keys) (λ _. Distinct-insert _ _ s.venue_key_versions v.distinct_keys);
  has_keys = ensure-HasKeys crates s realm venue now v.has_keys;
}

-- The challenges do not depend on the keys.
pub ensure-Each :
    (P : Str → VenueChallengeRecord → Type 0) (crates : Crates) (now : Instant) (s : ProofState)
    (realm venue : Str)
    → Each P s
    → Each P (ensure_active_venue_key crates s realm venue now).0
ensure-Each P crates now s realm venue h =
    ensure_cases crates s realm venue now (λ r. Each P r.0) (λ _ _. h) (λ _. h)

-- Three of the maps are all that matters.
pub IsKeyed-like :
    (s t : ProofState)
    → t.venue_challenges_by_id ≡ s.venue_challenges_by_id
    → t.venue_key_versions ≡ s.venue_key_versions
    → t.active_key_version_by_venue ≡ s.active_key_version_by_venue
    → IsKeyed s
    → IsKeyed t
IsKeyed-like s t a b c v = record {
  distinct_challenges = rw a v.distinct_challenges;
  distinct_keys = rw b v.distinct_keys;
  has_keys = record {
    of_challenges = λ id x g. rw b (v.has_keys.of_challenges id x (rw a at g));
    of_active = λ venue x g. rw b (v.has_keys.of_active venue x (rw c at g));
  };
}

pub issued_key :
    (crates : Crates) (request : StartRequest) (ids : StartIds) (now : Instant) (version : ℤ)
    (pin : Option IssuedPin) (t : ProofState)
    → contains_key (request.realm_id, (request.venue_id, version)) t.venue_key_versions ≡ true
    → contains_key
        (key_of (issued_challenge crates request ids now version pin))
        t.venue_key_versions
      ≡ true
unfolding issued_challenge
issued_key crates request ids now version pin t k = k

-- A start and a submission keep the keys, and what holds of every challenge when it is kept by the
-- changes and holds of a new one.
module _ (crates : Crates) (P : Str → VenueChallengeRecord → Type 0) where
  abbrev pub Both : ProofState → Type 0
  Both s = IsKeyed s × Each P s

  pub prune-Both :
      (s : ProofState) (now : Instant) → Both s → Both (prune_ephemeral_proof_state crates s now)
  prune-Both s now (v, h) =
      (prune-IsKeyed crates s now v, prune-Each crates s now P v.distinct_challenges h)

  pub start-Both :
      (input : StartProofChallengeInput) (ids : StartIds) (now : Instant) (s : ProofState)
      → ((request : StartRequest) (version : ℤ) (pin : Option IssuedPin)
          → P ids.challenge_id (issued_challenge crates request ids now version pin))
      → Both s
      → Both (start_proof_challenge crates input ids now s).0
  start-Both input ids now s new =
      start-keeps crates ids now Both (λ t h. h.0.has_keys) (λ t. prune-Both t now)
        (λ t realm venue h.
          (ensure-IsKeyed crates now t realm venue h.0, ensure-Each P crates now t realm venue h.1))
        (λ t request p few h.
          (IsKeyed-like t (push_audit crates request ids now t p) refl refl refl h.0, h.1))
        (λ t request version pin k h. (
          put-IsKeyed t ids.challenge_id (issued_challenge crates request ids now version pin)
              (issued_key crates request ids now version pin t k) h.0,
          insert-Each P t ids.challenge_id (issued_challenge crates request ids now version pin) h.1
              (new request version pin),
        ))
        input s

  -- The state before the last pruning of a submission.
  abbrev pub settled_state : ProofEnvelopeInput → SubmitIds → Instant → ProofState → ProofState
  settled_state input ids now s =
      let pruned = prune_ephemeral_proof_state crates s now in
      let decided = decide_submission crates input ids now pruned in
      settle_submission crates input ids now decided.1
        (verify_submission crates input ids now pruned).1.flags decided.0

  pub settled-Both :
      (input : ProofEnvelopeInput) (ids : SubmitIds) (now : Instant) (s : ProofState)
      → ((id : Str) (c c' : VenueChallengeRecord) → Change c c' → P id c → P id c')
      → Both s
      → Both (settled_state input ids now s)
  unfolding record_submission record_verification
  settled-Both input ids now s kept =
      settled-keeps crates input ids now Both (λ t. prune-Both t now)
        (λ t id c c' g change h. (
          Change-IsKeyed t id c c' g change h.0,
          insert-Each P t id c' h.1 (kept id c c' change (h.1 id c g)),
        ))
        (λ t d h.
          (IsKeyed-like t (record_submission crates input ids now d t) refl refl refl h.0, h.1))
        (λ t d flags h. (
          IsKeyed-like t (record_verification crates input ids now d flags t) refl refl refl h.0,
          h.1,
        ))
        s

  pub submit-Both :
      (input : ProofEnvelopeInput) (ids : SubmitIds) (now : Instant) (s : ProofState)
      → ((id : Str) (c c' : VenueChallengeRecord) → Change c c' → P id c → P id c')
      → Both s
      → Both (submit_proof_envelope_at crates input ids now s).0
  unfolding submit_proof_envelope_at submit_pruned
  submit-Both input ids now s kept h =
      prune-Both (settled_state input ids now s) now (settled-Both input ids now s kept h)
