-- ===== src/Proof/Invariant/Handed.antt =====
-- apps/backend/src/services/proof.rs: how many PINs an operator is handed in a minute, counted by
-- what the calls answer.
pub mod Limit
use pi_musubi_core.Prelude.{
  ℕ, suc, ◌+◌, ◌-◌, ◌≤◌, ◌<◌, ◌≡◌, refl, sym, ap, ◌∙◌, subst, Bool, true, false, ◌&&◌, List, [],
  ◌∷◌, ◌++◌, arith, inl, inr, Bool-cases, leb, length, filter, ◌==◌, nat_eq, list_eq, list_beq_iff,
  All, All-mono, All-filter, All-append,
}
use mathlib.Core.Path.{ap₂}
use pi_musubi_core.Proof.State.{
  Str, Instant, Crates, ProofState, OperatorPinAuditRecord, with_server_secret,
}
use pi_musubi_core.Proof.Messages.{StartProofChallengeInput, ProofEnvelopeInput}
use pi_musubi_core.Proof.Challenge.{issued_since}
use pi_musubi_core.Proof.Sort.{sort_by, length-sort_by, All-sort_by}
use pi_musubi_core.Proof.Sort.Passing.{
  passing, passing-sort_by, passing-append, passing_mono, passing-filter_all,
}
use pi_musubi_core.Proof.Prune.{drop, audit_earlier, is_recent, prune_ephemeral_proof_state}
use pi_musubi_core.Proof.Start.{
  StartIds, StartRequest, IssuedPin, delivery, audit_of, start_proof_challenge,
}
use pi_musubi_core.Proof.Start.Pins.{Handed, handed, pruned_audits, prune-audits, start_pins}
use pi_musubi_core.Proof.Submit.{
  SubmitIds, submit_proof_envelope_at, record_submission, record_verification,
}
use pi_musubi_core.Proof.Submit.Steps.{submit-keeps}

-- Calls whose times do not go back, with the time of the last one and the PINs that the starts have
-- handed out.
pub data PinRun (crates : Crates) (s : ProofState)
    : Instant → List Handed → ProofState → Type 0 where
  begin : (at : Instant) → PinRun crates s at [] s
  started :
      {at : Instant} {log : List Handed} {t : ProofState} (input : StartProofChallengeInput)
      (ids : StartIds) (now : Instant)
      → PinRun crates s at log t
      → at ≤ now
      → PinRun crates s now
          (log ++ handed now (start_proof_challenge crates input ids now t).1)
          (start_proof_challenge crates input ids now t).0
  submitted :
      {at : Instant} {log : List Handed} {t : ProofState} (input : ProofEnvelopeInput)
      (ids : SubmitIds) (now : Instant)
      → PinRun crates s at log t
      → at ≤ now
      → PinRun crates s now log (submit_proof_envelope_at crates input ids now t).0

abbrev pub Audits : Type 0
Audits = List OperatorPinAuditRecord

-- A test of the realm, the venue, the operator and the instant.
abbrev pub Test : Type 0
Test = Str → Str → Str → Instant → Bool

abbrev pub on_audit : Test → OperatorPinAuditRecord → Bool
on_audit p audit = p audit.realm_id audit.venue_id audit.operator_id audit.issued_at

abbrev pub on_log : Test → Handed → Bool
on_log p d = p d.0.realm_id d.0.venue_id d.0.operator_id d.1

module _ (crates : Crates) where
  abbrev pub cutoff : Instant → Instant
  cutoff now = crates.sub_seconds now 60

  -- The minute up to an instant, and the PINs of an operator of a venue in it.
  abbrev pub in_minute : Instant → Test
  in_minute now realm venue operator at = leb (cutoff now) at && leb at now

  abbrev pub of_operator : Str → Str → Str → Instant → Test
  of_operator realm venue operator now r v o at =
      (r == realm) && (v == venue) && (o == operator) && leb (cutoff now) at && leb at now

  -- How many PINs were handed out in the minute up to an instant, and how many of them to an
  -- operator of a venue.
  abbrev pub handed_in_minute : Instant → List Handed → ℕ
  handed_in_minute now = passing (on_log (in_minute now))

  abbrev pub handed_to : Str → Str → Str → Instant → List Handed → ℕ
  handed_to realm venue operator now = passing (on_log (of_operator realm venue operator now))

  abbrev pub Crowd : List Handed → Type 0
  Crowd log = (now : Instant) → handed_in_minute now log ≤ 1024

  abbrev pub Limit : List Handed → Type 0
  Limit log =
      (realm venue operator : Str) (now : Instant) → handed_to realm venue operator now log ≤ 3

  abbrev pub Young : Instant → Test → Type 0
  Young now p = (r v o : Str) (at : Instant) → p r v o at ≡ true → leb (cutoff now) at ≡ true

  -- The audits tell of the last minute what the log tells.
  pub record Tracks (now : Instant) (audits : Audits) (log : List Handed) : Type 0 where
    pub past_audits : All (λ a. a.issued_at ≤ now) audits
    pub past_log : All (λ d. d.1 ≤ now) log
    pub same : (p : Test) → Young now p → passing (on_audit p) audits ≡ passing (on_log p) log

  module _ (monotone : (t u : Instant) → t ≤ u → cutoff t ≤ cutoff u) where
    Young-earlier : (at now : Instant) (p : Test) → at ≤ now → Young now p → Young at p
    Young-earlier at now p le young r v o i h =
        let k = young r v o i h in let m = monotone at now le in ground arith

    pub later-Tracks :
        (at now : Instant) (audits : Audits) (log : List Handed)
        → at ≤ now
        → Tracks at audits log
        → Tracks now audits log
    later-Tracks at now audits log le t = record {
      past_audits = All-mono _ _ audits (λ a h. omega (arith, h)) t.past_audits;
      past_log = All-mono _ _ log (λ d h. omega (arith, h)) t.past_log;
      same = λ p young. t.same p (Young-earlier at now p le young);
    }

  minute-Young : (now : Instant) → Young now (in_minute now)
  minute-Young now r v o at h = ground arith

  pub operator-Young :
      (realm venue operator : Str) (now : Instant)
      → Young now (of_operator realm venue operator now)
  operator-Young realm venue operator now r v o at h = ground arith

  drop_none : {A : Type 0} (n : ℕ) (xs : List A) → n ≡ 0 → drop n xs ≡ xs
  drop_none n xs h = rw h refl

  pub prune-Tracks :
      (now : Instant) (audits : Audits) (log : List Handed)
      → handed_in_minute now log ≤ 1024
      → Tracks now audits log
      → Tracks now (pruned_audits crates now audits) log
  unfolding passing
  prune-Tracks now audits log few t =
      let kept = filter (is_recent crates now) audits in
      let none : length (sort_by audit_earlier kept) - 1024 ≡ 0 =
        omega
          (arith, length-sort_by audit_earlier kept, t.same (in_minute now) (minute-Young now)) in
      rw (drop_none (length (sort_by audit_earlier kept) - 1024) (sort_by audit_earlier kept) none)
        record {
          past_audits =
              All-sort_by audit_earlier _ kept
                (All-filter _ (is_recent crates now) audits t.past_audits);
          past_log = t.past_log;
          same = λ p young.
              passing-sort_by (on_audit p) audit_earlier kept
              ∙ passing-filter_all (on_audit p) (is_recent crates now) audits (
                  All-mono _ _ audits
                    (λ a past h.
                      let y = young a.realm_id a.venue_id a.operator_id a.issued_at h in
                      ground (arith, y, past))
                    t.past_audits)
              ∙ t.same p young;
        }
