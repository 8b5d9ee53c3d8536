-- ===== src/Proof/Prune/Active.antt =====
-- apps/backend/src/services/proof.rs: the pruning never drops an active challenge.
use pi_musubi_core.Prelude.{
  ℕ, zero, suc, ◌≤◌, ◌≡◌, refl, sym, Bool, true, false, not, Option, none, some, List, [], ◌∷◌,
  ◌++◌, map, arith, inl, inr, Bool-cases, leb, ltb, ◌==◌, nat_eq, list_eq, list_beq_iff, clash,
  some_injective, subst, ◌∙◌, filter, All, All-mono, filter_holds, string_eq,
}
use pi_musubi_core.HashMap.{HashMap, get, Distinct}
use pi_musubi_core.HashMap.Laws.{entries-get}
use pi_musubi_core.HashMap.Select.{elem}
use pi_musubi_core.Proof.State.{Str, Instant, Crates, ProofState, VenueChallengeRecord}
use pi_musubi_core.Proof.Digest.{take}
use pi_musubi_core.Proof.Sort.{earlier, All-sort_by}
use pi_musubi_core.Proof.Challenge.{
  challenge_retention_anchor, is_challenge_active, later, proof_challenge_retention_seconds,
}
use pi_musubi_core.Proof.Prune.{
  Dated, first, dated, active_at, expired_challenge_ids, prune_ephemeral_proof_state,
}
use pi_musubi_core.Proof.Prune.Challenges.{without_keeps, prune_challenges}

pub All-take : {A : Type 0} (P : A → Type 0) (n : ℕ) (xs : List A) → All P xs → All P (take n xs)
All-take P zero xs h = tt
All-take P (suc n) [] h = tt
All-take P (suc n) (x ∷ xs) h = (h.0, All-take P n xs h.1)

-- An identifier is not among these.
abbrev Avoids : Str → List Dated → Type 0
Avoids j = All (λ x. (x.0 == j) ≡ false)

Avoids-elem : (j : Str) (xs : List Dated) → Avoids j xs → elem j (map first xs) ≡ false
Avoids-elem j [] h = refl
Avoids-elem j (x ∷ xs) h = ground (arith, h.0, Avoids-elem j xs h.1)

elem-append :
    (j : Str) (s t : List Str) → elem j s ≡ false → elem j t ≡ false → elem j (s ++ t) ≡ false
elem-append j [] t h k = k
elem-append j (x ∷ s) t h k = ground (arith, elem-append j s t)

pub dated-All :
    {V : Type 0} (Q : Dated → Type 0) (test : V → Bool) (date : V → Instant) (m : HashMap Str V)
    → All (λ e. test e.1 ≡ true → Q (e.0, date e.1)) m
    → All Q (dated test date m)
unfolding dated
dated-All Q test date [] h = tt
dated-All Q test date ((id, v) ∷ m) h = elim (Bool-cases (test v)) [
  | inl e ↦ rw (e, dated) (h.0 e, dated-All Q test date m h.1)
  | inr e ↦ rw (e, dated) (dated-All Q test date m h.1)
]

later_bound : (anchor : Instant) (o : Option Instant) → anchor ≤ later anchor o
later_bound anchor none = omega arith
later_bound anchor (some at) = ground arith

opposite : (b : Bool) → not b ≡ true → b ≡ false
opposite b h = ground arith

module _ (m : HashMap Str VenueChallengeRecord) (d : Distinct m) (j : Str)
    (c : VenueChallengeRecord) (g : get j m ≡ some c) (cutoff now : Instant)
    (active : is_challenge_active now c ≡ true) (past : cutoff ≤ now) where
  anchor_lem : ltb (challenge_retention_anchor c) cutoff ≡ false
  unfolding challenge_retention_anchor is_challenge_active
  anchor_lem = ground (
    arith,
    later_bound c.expires_at c.consumed_at,
    later_bound (later c.expires_at c.consumed_at) c.operator_pin_expires_at,
  )

  -- An entry under another identifier than the active challenge's.
  apart : (i : Str) → (get i m ≡ some c → ⊥) → (i == j) ≡ false
  apart i other = elim (Bool-cases (i == j)) [
    | inl same ↦ absurd (other (subst (λ k. get k m ≡ some c) (sym ((list_beq_iff i j).0 same)) g))
    | inr e ↦ e
  ]

  old-Avoids :
      Avoids j (dated (λ c. ltb (challenge_retention_anchor c) cutoff) (λ c. c.issued_at) m)
  old-Avoids =
      dated-All (λ x. (x.0 == j) ≡ false) (λ c. ltb (challenge_retention_anchor c) cutoff)
        (λ c. c.issued_at) m
        (All-mono (λ e. get e.0 m ≡ some e.1) _ m
          (λ e here old. apart e.0 (λ k. clash old (
            subst (λ x. ltb (challenge_retention_anchor x) cutoff ≡ false)
              (some_injective (sym k ∙ here)) anchor_lem)))
          (entries-get m d))

  still_inactive :
      {o : Option VenueChallengeRecord}
      → some c ≡ o
      → not (active_at now o) ≡ true
      → is_challenge_active now c ≡ false
  still_inactive {o} k h = opposite _ (rw (← k) at h)

  inactive-Avoids : (xs : List Dated) → Avoids j (filter (λ x. not (active_at now (get x.0 m))) xs)
  inactive-Avoids xs =
      All-mono (λ x. not (active_at now (get x.0 m)) ≡ true) (λ x. (x.0 == j) ≡ false) _
        (λ x h. apart x.0 (λ k. clash active (still_inactive (sym k) h)))
        (filter_holds (λ x. not (active_at now (get x.0 m))) xs)

  active_stays : elem j (expired_challenge_ids m cutoff now) ≡ false
  unfolding expired_challenge_ids
  active_stays = elem-append j _ _ (Avoids-elem j _ old-Avoids) (
      Avoids-elem j _ (
        All-take (λ x. (x.0 == j) ≡ false) _ _
          (All-sort_by earlier (λ x. (x.0 == j) ≡ false) _
            (inactive-Avoids
              (dated (λ c. leb cutoff (challenge_retention_anchor c)) (λ c. c.issued_at) m)))))

-- The pruning keeps every challenge that is active, however many there are.
pub prune_keeps_active :
    (crates : Crates) (s : ProofState) (now : Instant) (id : Str) (c : VenueChallengeRecord)
    → Distinct s.venue_challenges_by_id
    → crates.sub_seconds now proof_challenge_retention_seconds ≤ now
    → get id s.venue_challenges_by_id ≡ some c
    → is_challenge_active now c ≡ true
    → get id (prune_ephemeral_proof_state crates s now).venue_challenges_by_id ≡ some c
prune_keeps_active crates s now id c d past g active = rw (prune_challenges crates s now) (
    without_keeps _ s.venue_challenges_by_id d id c g
      (active_stays s.venue_challenges_by_id d id c g _ now active past))
