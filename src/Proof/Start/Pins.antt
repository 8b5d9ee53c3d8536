-- ===== src/Proof/Start/Pins.antt =====
-- apps/backend/src/services/proof.rs: the audits after `start_proof_challenge`, with the PIN that it
-- hands out.
use pi_musubi_core.Prelude.{
  ◌-◌, ◌≡◌, refl, false, Option, none, some, List, [], ◌∷◌, ◌++◌, Result, ok, err, Result-cases,
  inl, inr, if_cases, leb, length, filter, ◌==◌, nat_eq, list_eq, string_eq, pair_eq, int_eq,
}
use pi_musubi_core.Prelude.Int.{ℤ}
use pi_musubi_core.Proof.State.{Str, Instant, Crates, ProofState, OperatorPinAuditRecord}
use pi_musubi_core.Proof.Messages.{
  StartProofChallengeInput, StartProofChallengeServiceOutcome, OperatorPinDelivery, ProofError,
}
use pi_musubi_core.Proof.Texts.{required_trimmed, unwrap_or, fallback_operator_pin}
use pi_musubi_core.Proof.Keys.{ensure_active_venue_key}
use pi_musubi_core.Proof.Keys.Ensure.{ensure_cases}
use pi_musubi_core.Proof.Keys.Prune.{prune_venue_key_state}
use pi_musubi_core.Proof.Sort.{sort_by}
use pi_musubi_core.Proof.Sort.Passing.{passing}
use pi_musubi_core.Proof.Challenge.{
  operator_pin_rate_limit_per_minute, max_active_proof_challenges_per_subject,
  max_active_proof_challenges, active_challenge_count, active_challenge_count_for_subject,
  operator_pin_issuance_count, issued_since,
}
use pi_musubi_core.Proof.Prune.{
  drop, audit_earlier, is_recent, prune_venue_challenge_state, prune_operator_pin_audit_state,
  prune_ephemeral_proof_state, drop_submissions,
}
use pi_musubi_core.Proof.Prune.Challenges.{prune_submissions_keeps}
use pi_musubi_core.Proof.Verify.Chain.{put_challenge}
use pi_musubi_core.Proof.Start.{
  StartIds, StartRequest, start_request, IssuedPin, issued_challenge, push_audit, audit_of,
  delivery, option_map, issued_pin, store_challenge, issue_pin, issue_challenge, start_pruned,
  start_proof_challenge,
}
use pi_musubi_core.Proof.Start.Steps.{Answer}

-- A PIN that was handed out, with the instant.
abbrev pub Handed : Type 0
Handed = OperatorPinDelivery × Instant

abbrev pub delivered : Instant → Option OperatorPinDelivery → List Handed
delivered now none = []
delivered now (some d) = (d, now) ∷ []

-- The PIN that a start hands out, if it does.
abbrev pub handed : Instant → Result ProofError StartProofChallengeServiceOutcome → List Handed
handed now (err e) = []
handed now (ok outcome) = delivered now outcome.operator_delivery

abbrev Audits : Type 0
Audits = List OperatorPinAuditRecord

-- What the pruning makes of the audits.
abbrev pub pruned_audits : Crates → Instant → Audits → Audits
pruned_audits crates now audits =
    let sorted = sort_by audit_earlier (filter (is_recent crates now) audits) in
    drop (length sorted - 1024) sorted

pub prune-audits :
    (crates : Crates) (now : Instant) (s : ProofState)
    → (prune_ephemeral_proof_state crates s now).operator_pin_audits
      ≡ pruned_audits crates now s.operator_pin_audits
unfolding prune_ephemeral_proof_state prune_operator_pin_audit_state prune_venue_key_state
    prune_venue_challenge_state drop_submissions
prune-audits crates now s =
    prune_submissions_keeps crates
      (prune_operator_pin_audit_state crates
        (prune_venue_key_state (prune_venue_challenge_state crates s now)) now)
      now (λ t. t.operator_pin_audits) (λ ids. refl)

module _ (crates : Crates) (ids : StartIds) (now : Instant)
    (Q : List OperatorPinAuditRecord → List Handed → Type 0) where
  abbrev Holds : Answer → Type 0
  Holds r = Q r.0.operator_pin_audits (handed now r.1)

  -- The audits with one for a new PIN.
  abbrev pub with_audit : StartRequest → IssuedPin → Audits → Audits
  with_audit request p audits = audits ++ audit_of crates request ids now p ∷ []

  module _ (request : StartRequest) (audits : List OperatorPinAuditRecord) (refused : Q audits [])
      (without_pin : Q (pruned_audits crates now audits) [])
      (with_pin : (p : IssuedPin)
        → leb 3 (
            passing
              (issued_since crates request.realm_id request.venue_id p.operator_id now)
              audits)
          ≡ false
        → Q
            (pruned_audits crates now (with_audit request p audits))
            ((delivery crates request ids now p, now) ∷ [])) where
    store_pins :
        (s : ProofState) (version : ℤ) (pin : Option IssuedPin)
        → Q
            (pruned_audits crates now s.operator_pin_audits)
            (delivered now (option_map (delivery crates request ids now) pin))
        → Holds (store_challenge crates request ids now s version pin)
    unfolding store_challenge
    store_pins s version pin h =
        rw
          (prune-audits crates now (
            put_challenge s ids.challenge_id (issued_challenge crates request ids now version pin)))
          h

    pin_pins :
        (s : ProofState) (version : ℤ) (operator : Result ProofError Str)
        → s.operator_pin_audits ≡ audits
        → Holds (issue_pin crates request ids now s version operator)
    unfolding issue_pin issued_pin operator_pin_issuance_count passing
    pin_pins s version (err e) same = rw same refused
    pin_pins s version (ok operator) same =
        let p = issued_pin crates request ids now s.server_secret operator in
        if_cases Holds
          (leb operator_pin_rate_limit_per_minute
            (operator_pin_issuance_count crates s request.realm_id request.venue_id operator now))
          _ _ (λ _. rw same refused)
          λ few.
            store_pins (push_audit crates request ids now s p) version (some p)
              (rw same (with_pin p (rw same at few)))

    issue_pins :
        (s : ProofState) (operator : Option Str)
        → s.operator_pin_audits ≡ audits
        → Holds (issue_challenge crates request ids now s operator)
    unfolding issue_challenge
    issue_pins s operator same =
        let k = ensure_active_venue_key crates s request.realm_id request.venue_id now in
        let kept : k.0.operator_pin_audits ≡ audits =
          ensure_cases crates s request.realm_id request.venue_id now
            (λ r. r.0.operator_pin_audits ≡ audits) (λ _ _. same) (λ _. same) in
        if_cases Holds (request.fallback_mode == fallback_operator_pin) _ _
          (λ _.
            pin_pins k.0 k.1
              (required_trimmed (unwrap_or operator [])
                "operator_id is required for operator_pin fallback")
              kept)
          (λ _. store_pins k.0 k.1 none (rw kept without_pin))

    limit_pins :
        (s : ProofState) (operator : Option Str)
        → s.operator_pin_audits ≡ audits
        → Holds (start_pruned crates request ids now s operator)
    unfolding start_pruned
    limit_pins s operator same =
        if_cases Holds
          (leb max_active_proof_challenges_per_subject
            (active_challenge_count_for_subject s request.subject_account_id now))
          _ _ (λ _. rw same refused)
          λ _.
            if_cases Holds (leb max_active_proof_challenges (active_challenge_count s now)) _ _
              (λ _. rw same refused) (λ _. issue_pins s operator same)

  -- A start leaves the audits as they are, prunes them once or twice, or hands out a PIN, below the
  -- limit, with an audit of it.
  pub start_pins :
      (input : StartProofChallengeInput) (s : ProofState)
      → Q s.operator_pin_audits []
      → Q (pruned_audits crates now s.operator_pin_audits) []
      → Q (pruned_audits crates now (pruned_audits crates now s.operator_pin_audits)) []
      → ((request : StartRequest) (p : IssuedPin)
          → leb 3 (
              passing
                (issued_since crates request.realm_id request.venue_id p.operator_id now)
                (pruned_audits crates now s.operator_pin_audits))
            ≡ false
          → Q
              (pruned_audits crates now
                (with_audit request p (pruned_audits crates now s.operator_pin_audits)))
              ((delivery crates request ids now p, now) ∷ []))
      → Holds (start_proof_challenge crates input ids now s)
  unfolding start_proof_challenge
  start_pins input s same pruned twice pin = elim (Result-cases (start_request input)) [
    | inl (request, e) ↦
        rw (e, start_proof_challenge)
          (limit_pins request (pruned_audits crates now s.operator_pin_audits) pruned twice
            (pin request) (prune_ephemeral_proof_state crates s now) input.operator_id
            (prune-audits crates now s))
    | inr (error, e) ↦ rw (e, start_proof_challenge) same
  ]
