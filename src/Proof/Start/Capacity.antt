-- ===== src/Proof/Start/Capacity.antt =====
-- apps/backend/src/services/proof.rs: how many challenges are active, through starts and
-- submissions whose times do not go back.
use pi_musubi_core.Prelude.{
  ℕ, ◌+◌, ◌≤◌, ◌<◌, ◌≡◌, refl, sym, ap, subst, Bool, true, not, ◌&&◌, some, List, [], ◌∷◌, arith,
  inl, inr, Bool-cases, leb, length, filter, ◌==◌, nat_eq, list_eq, list_beq_iff, string_eq,
  if◌then◌else◌, some_injective,
}
use pi_musubi_core.HashMap.{get, insert, values}
use pi_musubi_core.HashMap.Select.{elem}
use pi_musubi_core.HashMap.Retain.{retain}
use pi_musubi_core.Proof.State.{Str, Instant, Crates, ProofState, VenueChallengeRecord}
use pi_musubi_core.Proof.Challenge.{
  is_none, is_challenge_active, is_active_of, challenge_status_issued,
}
use pi_musubi_core.Proof.Prune.{is_nil, without, prune_ephemeral_proof_state}
use pi_musubi_core.Proof.Prune.Challenges.{prune_challenges}
use pi_musubi_core.Proof.Start.Shape.{Challenges}
use pi_musubi_core.Proof.Attempt.{charged}
use pi_musubi_core.Proof.Submit.Steps.{Change}

unfoldable pub counted : (VenueChallengeRecord → Bool) → Challenges → ℕ
unfolding values
counted p m = length (filter p (values m))

abbrev one_if : Bool → ℕ
one_if b = if b then 1 else 0

counted-insert :
    (p : VenueChallengeRecord → Bool) (k : Str) (c : VenueChallengeRecord) (m : Challenges)
    → counted p (insert k c m) ≤ one_if (p c) + counted p m
unfolding counted insert values
counted-insert p k c [] = ground arith
counted-insert p k c ((j, d) ∷ m) = ground (arith, counted-insert p k c m)

-- A change that makes no challenge pass the test.
counted-change :
    (p : VenueChallengeRecord → Bool) (k : Str) (c c' : VenueChallengeRecord) (m : Challenges)
    → get k m ≡ some c
    → (p c' ≡ true → p c ≡ true)
    → counted p (insert k c' m) ≤ counted p m
unfolding counted insert values get
counted-change p k c c' [] g h = absurd (cc)
counted-change p k c c' ((j, d) ∷ m) g h = elim (Bool-cases (j == k)) [
  | inl e ↦ let same : d ≡ c = some_injective (rw e at g) in rw e (ground (arith, ap p same))
  | inr e ↦ rw e (ground (arith, counted-change p k c c' m (rw e at g) h))
]

counted-retain :
    (p : VenueChallengeRecord → Bool) (q : Str → VenueChallengeRecord → Bool) (m : Challenges)
    → counted p (retain q m) ≤ counted p m
unfolding counted retain values
counted-retain p q [] = omega arith
counted-retain p q ((j, d) ∷ m) = ground (arith, counted-retain p q m)

counted-without :
    (p : VenueChallengeRecord → Bool) (ids : List Str) (m : Challenges)
    → counted p (without ids m) ≤ counted p m
unfolding without
counted-without p ids m = elim (Bool-cases (is_nil ids)) [
  | inl e ↦ rw (e, without) (omega arith)
  | inr e ↦ rw (e, without) (counted-retain p (λ id _. not (elem id ids)) m)
]

counted_mono :
    (p q : VenueChallengeRecord → Bool) (m : Challenges)
    → ((c : VenueChallengeRecord) → p c ≡ true → q c ≡ true)
    → counted p m ≤ counted q m
unfolding counted values
counted_mono p q [] h = omega arith
counted_mono p q ((j, d) ∷ m) h = ground (arith, h d, counted_mono p q m h)

active_earlier :
    (now later : Instant) (c : VenueChallengeRecord)
    → now ≤ later
    → is_challenge_active later c ≡ true
    → is_challenge_active now c ≡ true
unfolding is_challenge_active
active_earlier now later c h a = ground arith

swap_head : (a b c d : Bool) → (a && b && c) ≡ true → d ≡ true → (d && b && c) ≡ true
swap_head a b c d h k = ground arith

second : (a b : Bool) → (a && b) ≡ true → b ≡ true
second a b h = ground arith

head_of : (a b : Bool) → (a && b) ≡ true → a ≡ true
head_of a b h = ground arith

both : (a b : Bool) → a ≡ true → b ≡ true → (a && b) ≡ true
both a b h k = ground arith

active_of_earlier :
    (x y : Str) (now later : Instant) (c : VenueChallengeRecord)
    → x ≡ y
    → now ≤ later
    → is_active_of x later c ≡ true
    → is_active_of y now c ≡ true
active_of_earlier x y now later c same le a =
    both (c.subject_account_id == y) (is_challenge_active now c)
      (subst (λ z. (c.subject_account_id == z) ≡ true) same
        (head_of (c.subject_account_id == x) (is_challenge_active later c) a))
      (active_earlier now later c le
        (second (c.subject_account_id == x) (is_challenge_active later c) a))

Change-active :
    (now : Instant) (c c' : VenueChallengeRecord)
    → Change c c'
    → is_challenge_active now c' ≡ true
    → is_challenge_active now c ≡ true
unfolding is_challenge_active
Change-active now c _ (Change.expiring o) h = absurd (cc)
Change-active now c _ (Change.charging e) h =
    swap_head ((charged c).status == challenge_status_issued) (is_none c.consumed_at)
      (leb now c.expires_at) (c.status == challenge_status_issued) h e
Change-active now c _ (Change.consuming at o) h = absurd (cc)

Change-subject :
    (c c' : VenueChallengeRecord) → Change c c' → c'.subject_account_id ≡ c.subject_account_id
Change-subject c _ (Change.expiring o) = refl
Change-subject c _ (Change.charging e) = refl
Change-subject c _ (Change.consuming at o) = refl

-- From an instant on, a subject has at most four active challenges, and there are at most 1024.
pub record HasRoom (at : Instant) (m : Challenges) : Type 0 where
  pub of_subject : (x : Str) (now : Instant) → at ≤ now → counted (is_active_of x now) m ≤ 4
  pub in_all : (now : Instant) → at ≤ now → counted (is_challenge_active now) m ≤ 1024

pub without-HasRoom :
    (at : Instant) (ids : List Str) (m : Challenges) → HasRoom at m → HasRoom at (without ids m)
without-HasRoom at ids m h = record {
  of_subject =
      λ x now le. omega (arith, counted-without (is_active_of x now) ids m, h.of_subject x now le);
  in_all =
      λ now le. omega (arith, counted-without (is_challenge_active now) ids m, h.in_all now le);
}

pub prune-HasRoom :
    (crates : Crates) (at now : Instant) (s : ProofState)
    → HasRoom at s.venue_challenges_by_id
    → HasRoom at (prune_ephemeral_proof_state crates s now).venue_challenges_by_id
prune-HasRoom crates at now s h =
    rw (prune_challenges crates s now) (without-HasRoom at _ s.venue_challenges_by_id h)

at_most_one : (b : Bool) → one_if b ≤ 1
at_most_one b = ground arith

-- One more challenge, when its subject has three at most, and there are 1023 at most.
pub insert-HasRoom :
    (at : Instant) (k : Str) (c : VenueChallengeRecord) (m : Challenges)
    → HasRoom at m
    → counted (is_active_of c.subject_account_id at) m < 4
    → counted (is_challenge_active at) m < 1024
    → HasRoom at (insert k c m)
insert-HasRoom at k c m h few room = record {
  of_subject = λ x now le. elim (Bool-cases (is_active_of x now c)) [
    | inl e ↦
        let same : x ≡ c.subject_account_id = sym (
          (list_beq_iff c.subject_account_id x).0
            (head_of (c.subject_account_id == x) (is_challenge_active now c) e)) in
        let fewer =
          counted_mono (is_active_of x now) (is_active_of c.subject_account_id at) m
            (λ d a. active_of_earlier x c.subject_account_id at now d same le a) in
        let more = counted-insert (is_active_of x now) k c m in
        omega (arith, fewer, few, rw e at more)
    | inr e ↦
        let more = counted-insert (is_active_of x now) k c m in
        omega (arith, h.of_subject x now le, rw e at more)
  ];
  in_all = λ now le.
      let fewer =
        counted_mono (is_challenge_active now) (is_challenge_active at) m
          (λ d a. active_earlier at now d le a) in
      omega (
        arith,
        fewer,
        room,
        counted-insert (is_challenge_active now) k c m,
        at_most_one (is_challenge_active now c),
      );
}

pub Change-HasRoom :
    (at : Instant) (k : Str) (c c' : VenueChallengeRecord) (m : Challenges)
    → get k m ≡ some c
    → Change c c'
    → HasRoom at m
    → HasRoom at (insert k c' m)
Change-HasRoom at k c c' m g change h = record {
  of_subject = λ x now le. omega (
    arith,
    counted-change (is_active_of x now) k c c' m g (λ a.
        both (c.subject_account_id == x) (is_challenge_active now c)
          (rw (← Change-subject c c' change)
            (head_of (c'.subject_account_id == x) (is_challenge_active now c') a))
          (Change-active now c c' change
            (second (c'.subject_account_id == x) (is_challenge_active now c') a))),
    h.of_subject x now le,
  );
  in_all = λ now le. omega (
    arith,
    counted-change (is_challenge_active now) k c c' m g (Change-active now c c' change),
    h.in_all now le,
  );
}
