-- ===== src/Proof/Texts.antt =====
-- apps/backend/src/services/proof.rs: the constants, and how texts are normalised.
pub mod Bucket
pub mod Parts
use pi_musubi_core.Prelude.{
  ℕ, ◌+◌, ◌-◌, String, Bool, true, false, not, ◌&&◌, ◌||◌, Option, none, some, List, [], ◌∷◌, map,
  Result, ok, err, ltb, leb, nat_beq, if◌then◌else◌, ◌==◌, any, nat_eq, list_eq,
}
use pi_musubi_core.Prelude.Text.{codes, trim, is_empty}
use pi_musubi_core.Settlement.Currency.{to_ascii_uppercase, byte_count, all}
use pi_musubi_core.Proof.State.{Str}
use pi_musubi_core.Proof.Messages.{
  SubmissionFallbackMode, none_mode, operator_pin_mode, SanitizedCoarseLocationBucket, ProofError,
  bad_request,
}

abbrev pub fallback_none : String
fallback_none = "none"

abbrev pub fallback_operator_pin : String
fallback_operator_pin = "operator_pin"

abbrev pub fallback_unsupported : String
fallback_unsupported = "unsupported"

-- `value.map(str::trim).filter(|value| !value.is_empty())`
abbrev pub filled : Str → Option Str
filled value = if is_empty value then none else some value

unfoldable pub trimmed_optional : Option Str → Option Str
trimmed_optional none = none
trimmed_optional (some value) = filled (trim value)

unfoldable pub canonical_optional : Option Str → Str
canonical_optional none = []
canonical_optional (some value) = trim value

unfoldable pub canonical_optional_json : Option Str → Option Str
canonical_optional_json none = none
canonical_optional_json (some value) = filled (trim value)

-- `is_some_and(|value| !value.trim().is_empty())`
abbrev pub is_present : Option Str → Bool
is_present none = false
is_present (some value) = not (is_empty (trim value))

unfoldable pub required_trimmed : Str → String → Result ProofError Str
required_trimmed value message =
    let value = trim value in if is_empty value then err (bad_request message) else ok value

unfoldable pub normalize_fallback_mode : Str → Result ProofError String
normalize_fallback_mode value =
    let normalized = trim value in
    if is_empty normalized || normalized == codes fallback_none
    then ok fallback_none
    else if normalized == codes fallback_operator_pin
    then ok fallback_operator_pin
    else err (bad_request "fallback_mode must be none or operator_pin")

abbrev pub unwrap_or : Option Str → Str → Str
unwrap_or none other = other
unwrap_or (some value) other = value

unfoldable pub parse_submission_fallback_mode : Option Str → Option SubmissionFallbackMode
unfolding trimmed_optional
parse_submission_fallback_mode value =
    let normalized = unwrap_or (trimmed_optional value) (codes fallback_none) in
    if normalized == codes fallback_none
    then some none_mode
    else if normalized == codes fallback_operator_pin
    then some operator_pin_mode
    else none

abbrev pub as_str : SubmissionFallbackMode → String
as_str none_mode = fallback_none
as_str operator_pin_mode = fallback_operator_pin

-- `map(SubmissionFallbackMode::as_str).unwrap_or(FALLBACK_UNSUPPORTED)`
abbrev pub mode_name : Option SubmissionFallbackMode → String
mode_name none = fallback_unsupported
mode_name (some mode) = as_str mode

abbrev pub to_ascii_lowercase : ℕ → ℕ
to_ascii_lowercase c = if leb 65 c && leb c 90 then c + 32 else c

abbrev pub upper : Str → Str
upper = map to_ascii_uppercase

abbrev pub lower : Str → Str
lower = map to_ascii_lowercase

abbrev pub is_ascii_digit : ℕ → Bool
is_ascii_digit c = leb 48 c && leb c 57

abbrev pub is_bucket_char : ℕ → Bool
is_bucket_char c = (leb 97 c && leb c 122) || is_ascii_digit c || nat_beq c 45

-- `contains("--")`
abbrev pub has_double_dash : Str → Bool
has_double_dash [] = false
has_double_dash (c ∷ []) = false
has_double_dash (c ∷ d ∷ s) = (nat_beq c 45 && nat_beq d 45) || has_double_dash (d ∷ s)

-- `split('-')`: a character joins the first part, a dash starts another.
abbrev pub grow : ℕ → List Str → List Str
grow c [] = (c ∷ []) ∷ []
grow c (part ∷ parts) = (c ∷ part) ∷ parts

abbrev pub split_dash : Str → List Str
split_dash [] = [] ∷ []
split_dash (c ∷ s) = let rest = split_dash s in if nat_beq c 45 then [] ∷ rest else grow c rest

abbrev pub is_named_part : Str → Bool
is_named_part part = not (is_empty part) && not (all is_ascii_digit part)

abbrev pub all_parts : List Str → Bool
all_parts [] = true
all_parts (part ∷ parts) = is_named_part part && all_parts parts

unfoldable pub is_valid_bucket : Str → Bool
is_valid_bucket canonical =
    leb (byte_count canonical) 32
    && all is_bucket_char canonical
    && any (λ c. nat_beq c 45) canonical
    && not (has_double_dash canonical)
    && all_parts (split_dash canonical)

abbrev pub sanitized : Str → SanitizedCoarseLocationBucket
sanitized canonical =
    let valid = is_valid_bucket canonical in
    record { stored_bucket = if valid then some canonical else none; invalid = not valid }

abbrev pub sanitize_filled : Option Str → SanitizedCoarseLocationBucket
sanitize_filled none = record { stored_bucket = none; invalid = false }
sanitize_filled (some value) = sanitized (lower value)

unfoldable pub sanitize_coarse_location_bucket : Option Str → SanitizedCoarseLocationBucket
unfolding trimmed_optional is_valid_bucket
sanitize_coarse_location_bucket value = sanitize_filled (trimmed_optional value)
