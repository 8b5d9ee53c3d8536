-- ===== src/Proof/Texts/Bucket.antt =====
-- apps/backend/src/services/proof.rs: which coarse location is stored.
use pi_musubi_core.Prelude.{
  ◌≡◌, refl, ap, true, false, Option, none, some, arith, inl, inr, Bool-cases, Option-cases,
  some_injective, clash, ◌↔◌,
}
use pi_musubi_core.Proof.State.{Str}
use pi_musubi_core.Proof.Texts.Parts.{IsBucket, valid-IsBucket, IsBucket-valid}
use pi_musubi_core.Proof.Texts.{
  trimmed_optional, lower, is_valid_bucket, sanitized, sanitize_filled,
  sanitize_coarse_location_bucket,
}

nothing_stored : {b : Str} → none ≡ some b → ⊥
nothing_stored h = cc

stored_valid :
    (s b : Str) → (sanitized s).stored_bucket ≡ some b → (s ≡ b) × (is_valid_bucket s ≡ true)
stored_valid s b h = elim (Bool-cases (is_valid_bucket s)) [
  | inl e ↦ (some_injective (rw e at h), e)
  | inr e ↦ absurd (nothing_stored (rw e at h))
]

-- The bucket that is stored for a text, and the text without its outer spaces in small letters.
abbrev StoredFor : Option Str → Str → Type 0
StoredFor value b = (v : Str) × (trimmed_optional value ≡ some v) × (lower v ≡ b) × IsBucket b

stored_out :
    (value : Option Str) (b : Str)
    → (sanitize_coarse_location_bucket value).stored_bucket ≡ some b
    → StoredFor value b
unfolding sanitize_coarse_location_bucket
stored_out value b h = elim (Option-cases (trimmed_optional value)) [
  | inl e ↦ absurd (nothing_stored (rw e at h))
  | inr (v, e) ↦
      let (same, valid) = stored_valid (lower v) b (rw e at h) in
      (v, e, same, valid-IsBucket b (rw same at valid))
]

given_bucket :
    (value : Option Str) (v : Str)
    → trimmed_optional value ≡ some v
    → sanitize_coarse_location_bucket value ≡ sanitized (lower v)
unfolding sanitize_coarse_location_bucket
given_bucket value v e = ap sanitize_filled e

refused :
    (value : Option Str)
    → (sanitize_coarse_location_bucket value).invalid ≡ true
    → (v : Str) × (trimmed_optional value ≡ some v) × ¬ (IsBucket (lower v))
unfolding sanitize_coarse_location_bucket
refused value h = elim (Option-cases (trimmed_optional value)) [
  | inl e ↦ absurd (clash (rw e at h) refl)
  | inr (v, e) ↦
      (v, e, (λ b. let i = rw e at h in let valid = IsBucket-valid (lower v) b in ground arith))
]

refuses : (s : Str) → ¬ (IsBucket s) → is_valid_bucket s ≡ false
refuses s none_there = elim (Bool-cases (is_valid_bucket s)) [
  | inl e ↦ absurd (none_there (valid-IsBucket s e))
  | inr e ↦ e
]

-- A bucket is stored exactly when a text that is not blank is given that, without its outer spaces
-- and in small letters, is that bucket and has the form of one: at most 32 bytes, in two parts or
-- more with a dash between each two, each part of small letters and digits with a letter among
-- them. The location is invalid exactly when a text that is not blank is given that has no such
-- form.
pub sanitize_coarse_location_bucket-IsBucket :
    (value : Option Str)
    → ((b : Str)
        → ((sanitize_coarse_location_bucket value).stored_bucket ≡ some b)
          ↔ ((v : Str) × (trimmed_optional value ≡ some v) × (lower v ≡ b) × IsBucket b))
      × (((sanitize_coarse_location_bucket value).invalid ≡ true)
          ↔ ((v : Str) × (trimmed_optional value ≡ some v) × ¬ (IsBucket (lower v))))
sanitize_coarse_location_bucket-IsBucket value = (
  (λ b. (
    stored_out value b,
    (λ (v, e, same, form).
        rw (given_bucket value v e, same, IsBucket-valid b form, sanitized) refl),
  )),
  (
    refused value,
    (λ (v, e, none_there).
        rw (given_bucket value v e, refuses (lower v) none_there, sanitized) refl),
  ),
)
