-- ===== src/Proof/Prune/Few.antt =====
-- apps/backend/src/services/proof.rs: how many submissions the pruning leaves.
use pi_musubi_core.Prelude.{
  ℕ, zero, suc, ◌-◌, ◌≤◌, ◌≡◌, refl, Bool, true, false, not, List, [], ◌∷◌, ◌++◌, map, arith, inl,
  inr, Bool-cases, if◌then◌else◌, leb, ltb, length, beq_refl, All, All-mono, nat_eq, list_eq,
}
use pi_musubi_core.HashMap.{HashMap}
use pi_musubi_core.HashMap.Select.{elem}
use pi_musubi_core.HashMap.Retain.{retain}
use pi_musubi_core.Proof.State.{Str, Instant, Crates, ProofState, ProofSubmissionRecord}
use pi_musubi_core.Proof.Digest.{take}
use pi_musubi_core.Proof.Sort.{earlier, sort_by, length-sort_by}
use pi_musubi_core.Proof.Sort.Passing.{passing, passing-sort_by}
use pi_musubi_core.Proof.Keys.Prune.{prune_venue_key_state}
use pi_musubi_core.Proof.Prune.{
  Dated, first, dated, is_nil, expired_submission_ids, drop_submissions,
  prune_venue_challenge_state, prune_operator_pin_audit_state, prune_proof_submission_state,
  prune_ephemeral_proof_state,
}
use pi_musubi_core.Proof.Challenge.{proof_submission_retention_seconds}

abbrev Submissions : Type 0
Submissions = HashMap Str ProofSubmissionRecord

abbrev Listed : List Str → List Dated → Type 0
Listed ids = All (λ x. elem x.0 ids ≡ true)

elem-append_left : (j : Str) (s t : List Str) → elem j s ≡ true → elem j (s ++ t) ≡ true
elem-append_left j [] t h = absurd (cc)
elem-append_left j (x ∷ s) t h = ground (arith, elem-append_left j s t)

elem-append_right : (j : Str) (s t : List Str) → elem j t ≡ true → elem j (s ++ t) ≡ true
elem-append_right j [] t h = h
elem-append_right j (x ∷ s) t h = ground (arith, elem-append_right j s t h)

own-Listed : (xs : List Dated) → Listed (map first xs) xs
own-Listed [] = tt
own-Listed (x ∷ xs) = (
  ground (arith, beq_refl x.0),
  All-mono (λ y. elem y.0 (map first xs) ≡ true) _ xs (λ y h. ground (arith, h)) (own-Listed xs),
)

-- Of a list whose first elements are all listed, the rest is not longer than what remains.
unlisted_le :
    (ids : List Str) (k : ℕ) (xs : List Dated)
    → Listed ids (take k xs)
    → passing (λ x. not (elem x.0 ids)) xs ≤ length xs - k
unfolding passing
unlisted_le ids zero [] h = omega arith
unlisted_le ids zero (x ∷ xs) h = ground (arith, unlisted_le ids zero xs tt)
unlisted_le ids (suc k) [] h = omega arith
unlisted_le ids (suc k) (x ∷ xs) h = ground (arith, h.0, unlisted_le ids k xs h.1)

abbrev is_old : Instant → ProofSubmissionRecord → Bool
is_old cutoff x = ltb x.received_at cutoff

grown :
    (j : Str) (b : Bool) (d : Dated) (rest : List Dated)
    → elem j (map first rest) ≡ true
    → elem j (map first (if b then d ∷ rest else rest)) ≡ true
grown j true d rest h = ground (arith, h)
grown j false d rest h = h

-- The old entries are listed.
old-Listed :
    (cutoff : Instant) (m : Submissions)
    → All
        (λ x.
          is_old cutoff x.1 ≡ true
          → elem x.0 (map first (dated (is_old cutoff) (λ x. x.received_at) m)) ≡ true)
        m
unfolding dated
old-Listed cutoff [] = tt
old-Listed cutoff ((id, x) ∷ m) =
    let rest = dated (is_old cutoff) (λ x. x.received_at) m in
    (
      (λ k. ground (arith, k, beq_refl id)),
      All-mono
          (λ (y : Str × ProofSubmissionRecord).
            is_old cutoff y.1 ≡ true → elem y.0 (map first rest) ≡ true)
          _ m (λ y h k. grown y.0 (is_old cutoff x) (id, x.received_at) rest (h k))
          (old-Listed cutoff m),
    )

-- Where the old ones are listed, those that stay are among the retained.
retain_le :
    (ids : List Str) (cutoff : Instant) (m : Submissions)
    → All (λ x. is_old cutoff x.1 ≡ true → elem x.0 ids ≡ true) m
    → length (retain (λ id _. not (elem id ids)) m)
      ≤ passing
          (λ x. not (elem x.0 ids))
          (dated (λ x. leb cutoff x.received_at) (λ x. x.received_at) m)
unfolding retain dated passing
retain_le ids cutoff [] h = omega arith
retain_le ids cutoff ((id, x) ∷ m) h = ground (arith, h.0, retain_le ids cutoff m h.1)

kept_le :
    (m : Submissions) (cutoff : Instant)
    → length (retain (λ id _. not (elem id (expired_submission_ids m cutoff))) m) ≤ 1024
unfolding expired_submission_ids
kept_le m cutoff =
    let old = map first (dated (is_old cutoff) (λ x. x.received_at) m) in
    let retained = dated (λ x. leb cutoff x.received_at) (λ x. x.received_at) m in
    let sorted = sort_by earlier retained in
    let gone = take (length retained - 1024) sorted in
    let ids = old ++ map first gone in
    omega (
      arith,
      retain_le ids cutoff m (
          All-mono _ _ m (λ x h k. elem-append_left x.0 old (map first gone) (h k))
            (old-Listed cutoff m)),
      passing-sort_by (λ x. not (elem x.0 ids)) earlier retained,
      unlisted_le ids (length retained - 1024) sorted (
          All-mono _ _ gone (λ x h. elem-append_right x.0 old (map first gone) h)
            (own-Listed gone)),
      length-sort_by earlier retained,
    )

nil_keeps :
    (ids : List Str) (m : Submissions)
    → is_nil ids ≡ true
    → length (retain (λ id _. not (elem id ids)) m) ≡ length m
unfolding retain
nil_keeps [] [] h = refl
nil_keeps [] (x ∷ m) h = ground (arith, nil_keeps [] m refl)
nil_keeps (x ∷ ids) m h = absurd (cc)

-- The pruning leaves at most 1024 submissions, whatever the state.
pub prune_few :
    (crates : Crates) (s : ProofState) (now : Instant)
    → length (prune_ephemeral_proof_state crates s now).proof_submissions_by_id ≤ 1024
unfolding prune_ephemeral_proof_state prune_operator_pin_audit_state prune_venue_key_state
    prune_venue_challenge_state prune_proof_submission_state drop_submissions
prune_few crates s now =
    let m = s.proof_submissions_by_id in
    let cutoff = crates.sub_seconds now proof_submission_retention_seconds in
    let ids = expired_submission_ids m cutoff in
    elim (Bool-cases (is_nil ids)) [
      | inl e ↦ rw e (omega (arith, nil_keeps ids m e, kept_le m cutoff))
      | inr e ↦ rw e (kept_le m cutoff)
    ]
