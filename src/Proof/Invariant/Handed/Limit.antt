-- ===== src/Proof/Invariant/Handed/Limit.antt =====
-- apps/backend/src/services/proof.rs: the limit on the PINs that an operator is handed in a minute.
use pi_musubi_core.Prelude.{
  ℕ, ◌+◌, ◌≤◌, ◌<◌, ◌≡◌, refl, sym, ap, ◌∙◌, subst, Bool, true, false, ◌&&◌, List, [], ◌∷◌, ◌++◌,
  arith, inl, inr, Bool-cases, leb, nat_eq, list_eq, list_beq_iff, All, All-mono, All-append,
}
use mathlib.Core.Path.{ap₂}
use pi_musubi_core.Proof.State.{
  Str, Instant, Crates, ProofState, OperatorPinAuditRecord, with_server_secret,
}
use pi_musubi_core.Proof.Messages.{StartProofChallengeInput, ProofEnvelopeInput}
use pi_musubi_core.Proof.Sort.Passing.{passing, passing-append, passing_mono}
use pi_musubi_core.Proof.Start.{
  StartIds, StartRequest, IssuedPin, delivery, audit_of, start_proof_challenge,
}
use pi_musubi_core.Proof.Start.Pins.{Handed, handed, pruned_audits, prune-audits, start_pins}
use pi_musubi_core.Proof.Submit.{
  SubmitIds, submit_proof_envelope_at, record_submission, record_verification,
}
use pi_musubi_core.Proof.Submit.Steps.{submit-keeps}
use pi_musubi_core.Proof.Invariant.Handed.{
  PinRun, begin, started, submitted, Audits, Test, on_audit, on_log, cutoff, in_minute, of_operator,
  handed_in_minute, handed_to, Crowd, Limit, Tracks, later-Tracks, operator-Young, prune-Tracks,
}

nil_right : {A : Type 0} (xs : List A) → xs ++ [] ≡ xs
nil_right [] = refl
nil_right (x ∷ xs) = ap (λ ys. x ∷ ys) (nil_right xs)

module _ (crates : Crates) where
  module _ (ids : StartIds) (now : Instant) (request : StartRequest) (p : IssuedPin) where
    abbrev given : Handed
    given = (delivery crates request ids now p, now)

    abbrev audit : OperatorPinAuditRecord
    audit = audit_of crates request ids now p

    one_more : (q : Test) → passing (on_audit q) (audit ∷ []) ≡ passing (on_log q) (given ∷ [])
    unfolding passing
    one_more q = ground arith

    push-Tracks :
        (audits : Audits) (log : List Handed)
        → Tracks crates now audits log
        → Tracks crates now (audits ++ audit ∷ []) (log ++ given ∷ [])
    unfolding passing
    push-Tracks audits log t = record {
      past_audits = All-append _ audits (audit ∷ []) t.past_audits (omega arith, tt);
      past_log = All-append _ log (given ∷ []) t.past_log (omega arith, tt);
      same = λ q young.
          passing-append (on_audit q) audits (audit ∷ [])
          ∙ ap₂ ◌+◌ (t.same q young) (one_more q)
          ∙ sym (passing-append (on_log q) log (given ∷ []));
    }

    below : (n : ℕ) → leb 3 n ≡ false → n < 3
    below n h = ground arith

    three_of :
        (a b c d e : Bool)
        → (a && b && c && d && e) ≡ true
        → (a ≡ true) × (b ≡ true) × (c ≡ true) × (d ≡ true) × (e ≡ true)
    three_of a b c d e h = ground arith

    module _ (monotone : (t u : Instant) → t ≤ u → cutoff crates t ≤ cutoff crates u) where
      -- For the operator of the new PIN, a minute that it falls in has no more than the last one.
      fewer_to :
          (later : Instant) (log : List Handed)
          → now ≤ later
          → All (λ d. d.1 ≤ now) log
          → handed_to crates request.realm_id request.venue_id p.operator_id later log
            ≤ handed_to crates request.realm_id request.venue_id p.operator_id now log
      fewer_to later log le past =
          passing_mono _ _ log
            (All-mono _ _ log (λ d h k. let m = monotone now later le in ground (arith, h, m)) past)

      push-Limit :
          (log : List Handed)
          → Limit crates log
          → All (λ d. d.1 ≤ now) log
          → handed_to crates request.realm_id request.venue_id p.operator_id now log < 3
          → Limit crates (log ++ given ∷ [])
      unfolding passing
      push-Limit log limit past few realm venue operator later =
          let test = on_log (of_operator crates realm venue operator later) in
          let more = passing-append test log (given ∷ []) in
          elim (Bool-cases (test given)) [
            | inl e ↦
                let (same_realm, same_venue, same_operator, young, le) = three_of _ _ _ _ _ e in
                let before : handed_to crates realm venue operator later log < 3 =
                  rw
                    (
                      ← (list_beq_iff request.realm_id realm).0 same_realm,
                      ← (list_beq_iff request.venue_id venue).0 same_venue,
                      ← (list_beq_iff p.operator_id operator).0 same_operator,
                    )
                    (omega (arith, fewer_to later log (ground (arith, le)) past)) in
                omega (arith, before, rw e at more)
            | inr e ↦ omega (arith, limit realm venue operator later, rw e at more)
          ]

  Counted : Instant → List Handed → Audits → List Handed → Type 0
  Counted now log audits new =
      Crowd crates (log ++ new) → Tracks crates now audits (log ++ new) × Limit crates (log ++ new)

  fewer_before : (log new : List Handed) → Crowd crates (log ++ new) → Crowd crates log
  fewer_before log new crowd now =
      omega (arith, crowd now, passing-append (on_log (in_minute crates now)) log new)

  none_new :
      (now : Instant) (log : List Handed) (audits : Audits)
      → (Crowd crates log → Tracks crates now audits log × Limit crates log)
      → Counted now log audits []
  unfolding Counted
  none_new now log audits h =
      subst (λ l. Crowd crates l → Tracks crates now audits l × Limit crates l)
        (sym (nil_right log)) h

  module _ (monotone : (t u : Instant) → t ≤ u → cutoff crates t ≤ cutoff crates u) where
    start-Counted :
        (input : StartProofChallengeInput) (ids : StartIds) (now : Instant) (s : ProofState)
        (log : List Handed)
        → (Crowd crates log → Tracks crates now s.operator_pin_audits log × Limit crates log)
        → Counted now log
            (start_proof_challenge crates input ids now s).0.operator_pin_audits
            (handed now (start_proof_challenge crates input ids now s).1)
    unfolding Counted
    start-Counted input ids now s log h =
        let once : Crowd crates log
            → Tracks crates now (pruned_audits crates now s.operator_pin_audits) log
              × Limit crates log =
          λ crowd. (
            prune-Tracks crates now s.operator_pin_audits log (crowd now) (h crowd).0,
            (h crowd).1,
          ) in
        start_pins crates ids now (Counted now log) input s
          (none_new now log s.operator_pin_audits h)
          (none_new now log (pruned_audits crates now s.operator_pin_audits) once)
          (none_new now log
            (pruned_audits crates now (pruned_audits crates now s.operator_pin_audits))
            (λ crowd. (prune-Tracks crates now _ log (crowd now) (once crowd).0, (h crowd).1)))
          λ request p few crowd.
            let before = fewer_before log (given ids now request p ∷ []) crowd in
            let (tracks, limit) = once before in
            let room = below ids now request p _ few in
            (
              prune-Tracks crates now _ (log ++ given ids now request p ∷ []) (crowd now)
                  (push-Tracks ids now request p _ log tracks),
              push-Limit ids now request p monotone log limit tracks.past_log (
                  subst (λ n. n < 3)
                    (tracks.same
                      (of_operator crates request.realm_id request.venue_id p.operator_id now)
                      (operator-Young crates request.realm_id request.venue_id p.operator_id now))
                    room),
            )

    submit-Tracks :
        (input : ProofEnvelopeInput) (ids : SubmitIds) (now : Instant) (s : ProofState)
        (log : List Handed)
        → handed_in_minute crates now log ≤ 1024
        → Tracks crates now s.operator_pin_audits log
        → Tracks crates now
            (submit_proof_envelope_at crates input ids now s).0.operator_pin_audits
            log
    unfolding record_submission record_verification
    submit-Tracks input ids now s log few =
        submit-keeps crates input ids now (λ t. Tracks crates now t.operator_pin_audits log)
          (λ t h.
            subst (λ a. Tracks crates now a log) (sym (prune-audits crates now t))
              (prune-Tracks crates now t.operator_pin_audits log few h))
          (λ t id c c' g change h. h) (λ t d h. h) (λ t d flags h. h) s

    Run-Counted :
        {s t : ProofState} {at : Instant} {log : List Handed}
        → PinRun crates s at log t
        → ((now : Instant) → Tracks crates now s.operator_pin_audits [])
        → Crowd crates log
        → Tracks crates at t.operator_pin_audits log × Limit crates log
    unfolding Counted passing
    Run-Counted (begin at) empty crowd = (empty at, (λ r v o now. omega arith))
    Run-Counted (started {at} {log} {t} input ids now run le) empty crowd =
        start-Counted input ids now t log
          (λ earlier.
            let (tracks, limit) = Run-Counted run empty earlier in
            (later-Tracks crates monotone at now t.operator_pin_audits log le tracks, limit))
          crowd
    Run-Counted (submitted {at} {log} {t} input ids now run le) empty crowd =
        let (tracks, limit) = Run-Counted run empty crowd in
        (
          submit-Tracks input ids now t log (crowd now)
              (later-Tracks crates monotone at now t.operator_pin_audits log le tracks),
          limit,
        )

empty-Tracks :
    (crates : Crates) (secret : Str) (now : Instant)
    → Tracks crates now (with_server_secret secret).operator_pin_audits []
unfolding with_server_secret passing
empty-Tracks crates secret now = record { past_audits = tt; past_log = tt; same = λ p young. refl }

-- After starts and submissions whose times do not go back, in any minute an operator of a venue has
-- been handed at most three PINs, where no minute has had more than 1024 PINs in all; an instant
-- less 60 seconds is not later when the instant is not.
pub pins_within_limit :
    (crates : Crates) (secret : Str) {t : ProofState} {at : Instant} {log : List Handed}
    → ((u v : Instant) → u ≤ v → crates.sub_seconds u 60 ≤ crates.sub_seconds v 60)
    → PinRun crates (with_server_secret secret) at log t
    → ((now : Instant) → handed_in_minute crates now log ≤ 1024)
    → (realm venue operator : Str) (now : Instant)
    → handed_to crates realm venue operator now log ≤ 3
pins_within_limit crates secret monotone run crowd =
    (Run-Counted crates monotone run (empty-Tracks crates secret) crowd).1
