-- ===== src/Proof/Verify/Guards.antt =====
-- apps/backend/src/services/proof.rs: guards with an early return, and how an acceptance passes them.
use pi_musubi_core.Prelude.{
  ℕ, ◌≤◌, ◌<◌, ◌≡◌, refl, sym, inl, inr, String, Bool, true, false, not, ◌&&◌, ◌||◌, Option, none,
  some, leb, ltb, ◌==◌, nat_eq, list_eq, string_eq, int_eq, pair_eq, arith, subst, Bool-cases,
  clash,
}
use pi_musubi_core.Proof.State.{ProofState}
use pi_musubi_core.Proof.Keys.{key_status_active, key_status_draining, key_status_revoked}
use pi_musubi_core.Proof.Verify.{VerificationResult}
use pi_musubi_core.Proof.Verify.Chain.{let_else, when◌return◌otherwise◌}
use pi_musubi_core.Proof.Attempt.{is_verified}

pub record Accepts (r : VerificationResult) : Type 0 where
  pub decided : is_verified r.decision ≡ true

pub record AcceptsNow (r : ProofState × VerificationResult) : Type 0 where
  pub decided : is_verified r.1.decision ≡ true

pub refuses : (r : VerificationResult) → is_verified r.decision ≡ false → ¬ Accepts r
refuses r e h = absurd (clash h.decided e)

pub refuses_now :
    (r : ProofState × VerificationResult) → is_verified r.1.decision ≡ false → ¬ AcceptsNow r
refuses_now r e h = absurd (clash h.decided e)

pub not-false : (b : Bool) → not b ≡ false → b ≡ true
not-false b h = ground arith

pub not-true : (b : Bool) → b ≡ true → not b ≡ false
not-true b h = ground arith

pub either : (a b : Bool) → (not a && not b) ≡ false → (a || b) ≡ true
either a b h = ground arith

pub neither : (a b : Bool) → (a || b) ≡ true → (not a && not b) ≡ false
neither a b h = ground arith

pub in_force : (at : ℕ) (b : Bool) (now : ℕ) → at ≤ now → b ≡ false → (ltb now at || b) ≡ false
in_force at b now h e = ground arith

pub not_revoked :
    (status : String)
    → ((status == key_status_active) || (status == key_status_draining)) ≡ true
    → (status == key_status_revoked) ≡ false
not_revoked status h = elim (Bool-cases (status == key_status_active)) [
  | inl e ↦
      subst (λ x. (x == key_status_revoked) ≡ false)
        (sym ((string_eq.decides status key_status_active).0 e)) refl
  | inr e ↦
      subst (λ x. (x == key_status_revoked) ≡ false)
        (sym ((string_eq.decides status key_status_draining).0 (rw e at h))) refl
]

pub begun_of : (at : ℕ) (b : Bool) (now : ℕ) → (ltb now at || b) ≡ false → at ≤ now
begun_of at b now h = ground arith

pub or_left : (a b : Bool) → (a || b) ≡ false → a ≡ false
or_left a b h = ground arith

pub below_limit : (n : ℕ) → leb 3 n ≡ false → n < 3
below_limit n h = ground arith

pub not_late : (now at : ℕ) → ltb at now ≡ false → now ≤ at
not_late now at h = ground arith

pub in_time_of : (now at : ℕ) → now ≤ at → ltb at now ≡ false
in_time_of now at h = ground arith

pub may_try : (b : Bool) (n : ℕ) → b ≡ false → n < 3 → (b || leb 3 n) ≡ false
may_try b n h k = ground arith

pub open_of : (a b : Bool) → (a || b) ≡ false → b ≡ false
open_of a b h = ground arith

-- Past a guard that refuses.
pub passed :
    {B : Type 0} (G : B → Type 0) (b : Bool) (x y : B)
    → ¬ G x
    → G (when b return x otherwise y)
    → (b ≡ false) × G y
unfolding when◌return◌otherwise◌
passed G true x y refused h = absurd (refused h)
passed G false x y refused h = (refl, h)

pub pass :
    {B : Type 0} (G : B → Type 0) (b : Bool) (x y : B)
    → b ≡ false
    → G y
    → G (when b return x otherwise y)
unfolding when◌return◌otherwise◌
pass G true x y e h = absurd (cc)
pass G false x y e h = h

pub given :
    {A B : Type 0} (G : B → Type 0) (o : Option A) (x : B) (rest : A → B)
    → ¬ G x
    → G (let_else o x rest)
    → (a : A) × ((o ≡ some a) × G (rest a))
unfolding let_else
given G none x rest refused h = absurd (refused h)
given G (some a) x rest refused h = (a, (refl, h))

pub give :
    {A B : Type 0} (G : B → Type 0) (o : Option A) (x : B) (rest : A → B) (a : A)
    → o ≡ some a
    → G (rest a)
    → G (let_else o x rest)
unfolding let_else
give G o x rest a e h = rw e h
