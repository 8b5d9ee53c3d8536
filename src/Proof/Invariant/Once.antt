-- ===== src/Proof/Invariant/Once.antt =====
-- apps/backend/src/services/proof.rs: the invariant of every run, and a challenge is redeemed once.
use pi_musubi_core.Prelude.{
  ◌≡◌, ◌≢◌, ◌⊎◌, refl, sym, subst, ap, ◌∙◌, String, Bool, true, false, Option, none, some, List,
  arith, inl, inr, if_cases, Option-cases, clash, some_injective, ◌==◌, nat_eq, list_eq, string_eq,
}
use pi_musubi_core.Prelude.Int.{ℤ}
use pi_musubi_core.Prelude.Text.{trim}
use pi_musubi_core.HashMap.{get, insert}
use pi_musubi_core.Proof.State.{
  Str, Instant, Crates, ProofState, VenueChallengeRecord, with_server_secret,
}
use pi_musubi_core.Proof.Messages.{ProofEnvelopeInput}
use pi_musubi_core.Proof.Texts.{trimmed_optional}
use pi_musubi_core.Proof.Challenge.{challenge_status_issued, challenge_status_quarantined}
use pi_musubi_core.Proof.Prune.{prune_ephemeral_proof_state}
use pi_musubi_core.Proof.Prune.Challenges.{Each, prune-Each}
use pi_musubi_core.Proof.Prune.Valid.{IsKeyed}
use pi_musubi_core.Proof.Start.{StartIds, StartRequest, IssuedPin, issued_challenge, is_some}
use pi_musubi_core.Proof.Attempt.{consume_challenge, consume, is_verified}
use pi_musubi_core.Proof.Submit.{
  SubmitIds, verify_submission, submit_pruned, submit_proof_envelope_at, settle_submission,
  decide_submission, record_submission, record_verification,
}
use pi_musubi_core.Proof.Verify.{VerificationDecision}
use pi_musubi_core.Proof.Verify.Guards.{give}
use pi_musubi_core.HashMap.Laws.{get-insert_self}
use pi_musubi_core.Proof.Submit.Steps.{Change, decide_accepted, decide_verified, filled_lem}
use pi_musubi_core.Proof.Invariant.{
  issued_differs, settled_state, settled-Both, Run, here, started, submitted, IsChallenge,
  IsProofState, Change-IsChallenge, Both, start-Both, submit-Both, prune-Both,
}

Run-Both :
    (crates : Crates) (Drawn : Str → Type 0) (P : Str → VenueChallengeRecord → Type 0)
    → ((id : Str) (c c' : VenueChallengeRecord) → Change c c' → P id c → P id c')
    → ((ids : StartIds) (request : StartRequest) (now : Instant) (version : ℤ)
          (pin : Option IssuedPin)
        → Drawn ids.challenge_id
        → P ids.challenge_id (issued_challenge crates request ids now version pin))
    → {s t : ProofState} → Run crates Drawn s t
    → Both crates P s
    → Both crates P t
Run-Both crates Drawn P kept new here h = h
Run-Both crates Drawn P kept new (started {t} input ids now run drawn) h =
    start-Both crates P input ids now t
      (λ request version pin. new ids request now version pin drawn)
      (Run-Both crates Drawn P kept new run h)
Run-Both crates Drawn P kept new (submitted {t} input ids now run) h =
    submit-Both crates P input ids now t kept (Run-Both crates Drawn P kept new run h)

empty-IsProofState : (secret : Str) → IsProofState (with_server_secret secret)
unfolding with_server_secret get
empty-IsProofState secret = record {
  keyed = record {
    distinct_challenges = tt;
    distinct_keys = tt;
    has_keys = record {
      of_challenges = λ id c g. absurd (cc);
      of_active = λ venue v g. absurd (cc);
    };
  };
  challenges = λ id c g. absurd (cc);
}

abbrev pub Anything : Str → Type 0
Anything id = Unit

issued-IsChallenge :
    (crates : Crates) (ids : StartIds) (request : StartRequest) (now : Instant) (version : ℤ)
    (pin : Option IssuedPin)
    → IsChallenge ids.challenge_id (issued_challenge crates request ids now version pin)
unfolding issued_challenge
issued-IsChallenge crates ids request now version pin = record {
  named = refl;
  attempts = omega arith;
  limit = λ h. absurd (omega (arith, h));
}

-- After any sequence of starts and submissions, whatever their inputs and times: no challenge and
-- no key stands twice, every key that a challenge or a venue in force names is there, and each
-- challenge stands under its own identifier with at most three failed attempts, and is quarantined
-- once there are three.
pub Run-IsProofState :
    (crates : Crates) (secret : Str) {t : ProofState}
    → Run crates Anything (with_server_secret secret) t
    → IsProofState t
Run-IsProofState crates secret run =
    let start = empty-IsProofState secret in
    let (keyed, each) =
      Run-Both crates Anything IsChallenge Change-IsChallenge
        (λ ids request now version pin _. issued-IsChallenge crates ids request now version pin) run
        (start.keyed, start.challenges) in
    record { keyed = keyed; challenges = each }

none_given : {j : Str} → trimmed_optional none ≡ some j → ⊥
unfolding trimmed_optional
none_given h = cc

never : (b : Bool) → (b ≡ true → ⊥) → b ≡ false
never true h = absurd (h refl)
never false h = refl

-- A challenge that is consumed or quarantined.
abbrev pub IsClosed : VenueChallengeRecord → Type 0
IsClosed c = (is_some c.consumed_at ≡ true) ⊎ ((c.status == challenge_status_quarantined) ≡ true)

abbrev pub ClosedAt : Str → Str → VenueChallengeRecord → Type 0
ClosedAt j id c = id ≡ j → IsClosed c

Change-IsClosed : (c c' : VenueChallengeRecord) → Change c c' → IsClosed c → IsClosed c'
Change-IsClosed c _ (Change.expiring o) (inl h) = inl h
Change-IsClosed c _ (Change.expiring o) (inr h) = absurd (clash h o.not_closed)
Change-IsClosed c _ (Change.charging e) (inl h) = inl h
Change-IsClosed c _ (Change.charging e) (inr h) = absurd (
    issued_differs (
      sym ((string_eq.decides c.status challenge_status_issued).0 e)
      ∙ (string_eq.decides c.status challenge_status_quarantined).0 h))
Change-IsClosed c _ (Change.consuming at o) h = inl refl

closed-Run :
    (crates : Crates) (j : Str) {s t : ProofState}
    → Run crates (λ drawn. drawn ≢ j) s t
    → Both crates (ClosedAt j) s
    → Both crates (ClosedAt j) t
closed-Run crates j run h =
    Run-Both crates (λ drawn. drawn ≢ j) (ClosedAt j)
      (λ id c c' change closed e. Change-IsClosed c c' change (closed e))
      (λ ids request now version pin other e. absurd (other e)) run h

module _ (crates : Crates) (input : ProofEnvelopeInput) (ids : SubmitIds) (now : Instant) where
  closed_refused :
      (j : Str) (s : ProofState)
      → Both crates (ClosedAt j) s
      → trimmed_optional input.challenge_id ≡ some j
      → (submit_proof_envelope_at crates input ids now s).1.accepted ≡ false
  unfolding submit_proof_envelope_at submit_pruned
  closed_refused j s (v, closed) named = never _ λ h.
      let r =
        (decide_accepted crates input ids now (prune_ephemeral_proof_state crates s now)
          h).redeems in
      let same : r.challenge_id ≡ j = some_injective (sym r.given_challenge_id ∙ named) in
      elim (prune-Each crates s now (ClosedAt j) v.distinct_challenges closed r.challenge_id
        r.challenge r.found same) [
          | inl consumed ↦ clash consumed r.unconsumed
          | inr quarantined ↦ clash quarantined r.not_closed
        ]

  consume_closes :
      (s : ProofState) (o : Option Str) (v : Str) (c : VenueChallengeRecord)
      → o ≡ some v
      → get (trim v) s.venue_challenges_by_id ≡ some c
      → Each (ClosedAt (trim v)) (consume_challenge s o now)
  unfolding consume_challenge
  consume_closes s none v c e g = absurd (cc)
  consume_closes s (some w) v c e g =
      let same : w ≡ v = some_injective e in
      give (λ (t : ProofState). Each (ClosedAt (trim v)) t) (get (trim w) s.venue_challenges_by_id)
        _ _ c (rw same g)
        (λ id x f at. inl (
          subst (λ y. is_some y.consumed_at ≡ true)
            (some_injective (
              sym (get-insert_self (trim w) (consume now c) s.venue_challenges_by_id)
              ∙ subst
                  (λ k. get k (insert (trim w) (consume now c) s.venue_challenges_by_id) ≡ some x)
                  (at ∙ ap trim (sym same)) f))
            refl))

  settle_closes :
      (s : ProofState) (d : VerificationDecision) (flags : List String) (v : Str)
      (c : VenueChallengeRecord)
      → is_verified d ≡ true
      → input.challenge_id ≡ some v
      → get (trim v) s.venue_challenges_by_id ≡ some c
      → Each (ClosedAt (trim v)) (settle_submission crates input ids now d flags s)
  unfolding settle_submission record_submission record_verification
  settle_closes s d flags v c h e g =
      if_cases (λ (t : ProofState). Each (ClosedAt (trim v)) t) (is_verified d) _ _
        (λ _.
          consume_closes (record_submission crates input ids now d s) input.challenge_id v c e g)
        (λ no. absurd (clash h no))

  settled_closes :
      (j : Str) (s : ProofState)
      → (submit_proof_envelope_at crates input ids now s).1.accepted ≡ true
      → trimmed_optional input.challenge_id ≡ some j
      → Each (ClosedAt j) (settled_state crates (λ _ _. Unit) input ids now s)
  unfolding submit_proof_envelope_at submit_pruned trimmed_optional
  settled_closes j s h named = elim (Option-cases input.challenge_id) [
    | inl e ↦ absurd (none_given (rw e at named))
    | inr (w, e) ↦
        let pruned = prune_ephemeral_proof_state crates s now in
        let decided = decide_submission crates input ids now pruned in
        let r = (decide_accepted crates input ids now pruned h).redeems in
        let same : trim w ≡ j = filled_lem (trim w) j (rw e at named) in
        let id : r.challenge_id ≡ trim w =
          some_injective (sym r.given_challenge_id ∙ named) ∙ sym same in
        let found : get (trim w) decided.0.venue_challenges_by_id ≡ some r.challenge =
          subst (λ t. get (trim w) t.venue_challenges_by_id ≡ some r.challenge)
            (sym (decide_verified crates input ids now pruned h))
            (subst (λ k. get k pruned.venue_challenges_by_id ≡ some r.challenge) id r.found) in
        subst (λ k. Each (ClosedAt k) (settled_state crates (λ _ _. Unit) input ids now s)) same
          (settle_closes decided.0 decided.1 (verify_submission crates input ids now pruned).1.flags
            w r.challenge h e found)
  ]

  accepted_closes :
      (j : Str) (s : ProofState)
      → IsKeyed s
      → (submit_proof_envelope_at crates input ids now s).1.accepted ≡ true
      → trimmed_optional input.challenge_id ≡ some j
      → Both crates (ClosedAt j) (submit_proof_envelope_at crates input ids now s).0
  unfolding submit_proof_envelope_at submit_pruned
  accepted_closes j s v h named =
      let (keyed, _) =
        settled-Both crates (λ _ _. Unit) input ids now s (λ _ _ _ _ _. tt) (v, (λ _ _ _. tt)) in
      prune-Both crates (ClosedAt j) (settled_state crates (λ _ _. Unit) input ids now s) now
        (keyed, settled_closes j s h named)

-- A challenge that is consumed or quarantined is so at the end of every run in which no new
-- challenge takes its identifier, if it is still there, and then no submission that names it is
-- accepted.
pub closed_never_accepted :
    (crates : Crates) (j : Str) (s t : ProofState)
    → IsProofState s
    → Each (ClosedAt j) s
    → Run crates (λ drawn. drawn ≢ j) s t
    → Each (ClosedAt j) t
      × ((input : ProofEnvelopeInput) (ids : SubmitIds) (now : Instant)
          → trimmed_optional input.challenge_id ≡ some j
          → (submit_proof_envelope_at crates input ids now t).1.accepted ≡ false)
closed_never_accepted crates j s t v closed run =
    let kept = closed-Run crates j run (v.keyed, closed) in
    (kept.1, (λ input ids now named. closed_refused crates input ids now j t kept named))

-- Once a submission has redeemed a challenge, no later submission that names it is accepted, in
-- every run in which no new challenge takes its identifier.
pub redeemed_once :
    (crates : Crates) (j : Str) (s t : ProofState) (first : ProofEnvelopeInput)
    (first_ids : SubmitIds) (at : Instant)
    → IsProofState s
    → (submit_proof_envelope_at crates first first_ids at s).1.accepted ≡ true
    → trimmed_optional first.challenge_id ≡ some j
    → Run crates (λ drawn. drawn ≢ j) (submit_proof_envelope_at crates first first_ids at s).0 t
    → (input : ProofEnvelopeInput) (ids : SubmitIds) (now : Instant)
    → trimmed_optional input.challenge_id ≡ some j
    → (submit_proof_envelope_at crates input ids now t).1.accepted ≡ false
redeemed_once crates j s t first first_ids at v accepted named run input ids now again =
    closed_refused crates input ids now j t
      (closed-Run crates j run
        (accepted_closes crates first first_ids at j s v.keyed accepted named))
      again
