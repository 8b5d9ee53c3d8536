-- ===== src/Proof/Prune.antt =====
-- apps/backend/src/services/proof.rs: what is dropped before and after each operation.
pub mod Challenges
pub mod Active
pub mod Valid
pub mod Indexed
pub mod Few
use pi_musubi_core.Prelude.{
  ℕ, zero, suc, ◌-◌, Bool, true, false, not, ◌&&◌, ◌||◌, Option, none, some, List, [], ◌∷◌, ◌++◌,
  map, length, filter, leb, ltb, nat_beq, if◌then◌else◌, ◌==◌, nat_eq, list_eq,
}
use pi_musubi_core.Prelude.Text.{is_empty}
use pi_musubi_core.HashMap.{HashMap, get, insert}
use pi_musubi_core.HashMap.Select.{elem}
use pi_musubi_core.HashMap.Retain.{retain}
use pi_musubi_core.Orchestration.Json.Order.{lex_lt}
use pi_musubi_core.Proof.State.{
  Str, Instant, Crates, ProofState, VenueChallengeRecord, ProofSubmissionRecord,
  ProofVerificationRecord, OperatorPinAuditRecord,
}
use pi_musubi_core.Proof.Digest.{take}
use pi_musubi_core.Proof.Sort.{earlier, sort_by}
use pi_musubi_core.Proof.Keys.Prune.{prune_venue_key_state}
use pi_musubi_core.Proof.Challenge.{
  challenge_retention_anchor, is_challenge_active, proof_challenge_retention_seconds,
  operator_pin_rate_limit_window_seconds, proof_submission_retention_seconds,
  max_retained_proof_challenges, max_retained_proof_submissions, max_retained_operator_pin_audits,
}

abbrev pub is_nil {ℓ} : {A : Type ℓ} → List A → Bool
is_nil [] = true
is_nil (x ∷ xs) = false

abbrev pub drop {ℓ} : {A : Type ℓ} → ℕ → List A → List A
drop zero s = s
drop (suc n) [] = []
drop (suc n) (x ∷ s) = drop n s

-- An identifier and the instant by which it is sorted.
abbrev pub Dated : Type 0
Dated = Str × Instant

-- The entries that pass a test, with their dates.
unfoldable pub dated : {V : Type 0} → (V → Bool) → (V → Instant) → HashMap Str V → List Dated
dated test date [] = []
dated test date ((id, v) ∷ m) =
    let rest = dated test date m in if test v then (id, date v) ∷ rest else rest

abbrev pub first : Dated → Str
first d = d.0

abbrev pub active_at : Instant → Option VenueChallengeRecord → Bool
active_at now none = true
active_at now (some challenge) = is_challenge_active now challenge

-- The entries that stay, and the identifiers that go: the old ones, and as many of the inactive
-- ones, the oldest first, as are too many.
unfoldable pub expired_challenge_ids :
    HashMap Str VenueChallengeRecord → Instant → Instant → List Str
unfolding get challenge_retention_anchor is_challenge_active dated sort_by
expired_challenge_ids challenges cutoff now =
    let old =
      map first
        (dated (λ c. ltb (challenge_retention_anchor c) cutoff) (λ c. c.issued_at) challenges) in
    let retained =
      dated (λ c. leb cutoff (challenge_retention_anchor c)) (λ c. c.issued_at) challenges in
    let inactive = filter (λ d. not (active_at now (get d.0 challenges))) retained in
    let overflow = length retained - max_retained_proof_challenges in
    old ++ map first (take overflow (sort_by earlier inactive))

-- `retain` of what a set does not contain, and nothing when the set is empty.
unfoldable pub without : {V : Type 0} → List Str → HashMap Str V → HashMap Str V
unfolding retain
without ids m = if is_nil ids then m else retain (λ id _. not (elem id ids)) m

abbrev pub audit_earlier : OperatorPinAuditRecord → OperatorPinAuditRecord → Bool
audit_earlier a b =
    ltb a.issued_at b.issued_at || (nat_beq a.issued_at b.issued_at && lex_lt a.audit_id b.audit_id)

-- The submissions as `iter` gives them, with their dates and replay keys.
abbrev pub submission_earlier : Str × ProofSubmissionRecord → Str × ProofSubmissionRecord → Bool
submission_earlier a b =
    ltb a.1.received_at b.1.received_at
    || (nat_beq a.1.received_at b.1.received_at && lex_lt a.0 b.0)

unfoldable pub index_submissions :
    List (Str × ProofSubmissionRecord) → HashMap Str Str → HashMap Str Str
unfolding insert
index_submissions [] index = index
index_submissions ((id, submission) ∷ rest) index =
    index_submissions rest (insert submission.replay_key id index)

unfoldable pub expired_submission_ids : HashMap Str ProofSubmissionRecord → Instant → List Str
unfolding dated sort_by
expired_submission_ids submissions cutoff =
    let old = map first (dated (λ s. ltb s.received_at cutoff) (λ s. s.received_at) submissions) in
    let retained = dated (λ s. leb cutoff s.received_at) (λ s. s.received_at) submissions in
    let overflow = length retained - max_retained_proof_submissions in
    old ++ map first (take overflow (sort_by earlier retained))

-- The state without some submissions and their verifications, with the replay index made anew.
unfoldable pub drop_submissions : List Str → ProofState → ProofState
unfolding retain sort_by index_submissions
drop_submissions ids store =
    let submissions = retain (λ id _. not (elem id ids)) store.proof_submissions_by_id in
    record store {
      proof_submissions_by_id = submissions;
      proof_verifications_by_id =
          retain (λ _ v. not (elem v.proof_submission_id ids)) store.proof_verifications_by_id;
      proof_submission_id_by_replay_key =
          index_submissions (sort_by submission_earlier submissions) [];
    }

module _ (crates : Crates) where
  unfoldable pub prune_venue_challenge_state : ProofState → Instant → ProofState
  unfolding expired_challenge_ids without
  prune_venue_challenge_state store now =
      let cutoff = crates.sub_seconds now proof_challenge_retention_seconds in
      record store {
        venue_challenges_by_id =
            without (expired_challenge_ids store.venue_challenges_by_id cutoff now)
              store.venue_challenges_by_id;
      }

  abbrev pub is_recent : Instant → OperatorPinAuditRecord → Bool
  is_recent now audit =
      leb (crates.sub_seconds now operator_pin_rate_limit_window_seconds) audit.issued_at
      && leb audit.issued_at now

  unfoldable pub prune_operator_pin_audit_state : ProofState → Instant → ProofState
  unfolding sort_by
  prune_operator_pin_audit_state store now =
      let audits = sort_by audit_earlier (filter (is_recent now) store.operator_pin_audits) in
      record store {
        operator_pin_audits = drop (length audits - max_retained_operator_pin_audits) audits;
      }

  unfoldable pub prune_proof_submission_state : ProofState → Instant → ProofState
  unfolding expired_submission_ids drop_submissions
  prune_proof_submission_state store now =
      let cutoff = crates.sub_seconds now proof_submission_retention_seconds in
      let ids = expired_submission_ids store.proof_submissions_by_id cutoff in
      if is_nil ids then store else drop_submissions ids store

  unfoldable pub prune_ephemeral_proof_state : ProofState → Instant → ProofState
  unfolding prune_venue_challenge_state prune_venue_key_state prune_operator_pin_audit_state
      prune_proof_submission_state
  prune_ephemeral_proof_state store now =
      prune_proof_submission_state
        (prune_operator_pin_audit_state
          (prune_venue_key_state (prune_venue_challenge_state store now)) now)
        now
