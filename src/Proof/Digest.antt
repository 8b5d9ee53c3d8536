-- ===== src/Proof/Digest.antt =====
-- apps/backend/src/services/proof.rs: what is hashed, and under which key. A digest takes the bytes
-- of its parts, each written as its length, a colon, the bytes and a semicolon.
pub mod Injective
use pi_musubi_core.Prelude.{
  ℕ, zero, suc, ◌+◌, ◌-◌, ◌*◌, ◌/◌, ◌%◌, ◌^◌, Bool, true, false, Option, none, some, List, [], ◌∷◌,
  ◌++◌, map, ltb, if◌then◌else◌, ◌==◌, nat_eq, list_eq,
}
use pi_musubi_core.Prelude.Int.{ℤ, pos, negsuc}
use pi_musubi_core.Prelude.Text.{codes, trim}
use pi_musubi_core.Settlement.Currency.{byte_count}
use pi_musubi_core.Proof.State.{Str, Crates}
use pi_musubi_core.Proof.Messages.{ProofEnvelopeInput}
use pi_musubi_core.Proof.Texts.{canonical_optional, trimmed_optional, upper, lower}

abbrev pub Bytes : Type 0
Bytes = List ℕ

-- The bytes of a text in UTF-8.
abbrev pub encode_char : ℕ → Bytes
encode_char c =
    if ltb c 0x80
    then c ∷ []
    else if ltb c 0x800
    then (0xc0 + c / 64) ∷ (0x80 + c % 64) ∷ []
    else if ltb c 0x10000
    then (0xe0 + c / 4096) ∷ (0x80 + c / 64 % 64) ∷ (0x80 + c % 64) ∷ []
    else (0xf0 + c / 262144) ∷ (0x80 + c / 4096 % 64) ∷ (0x80 + c / 64 % 64) ∷ (0x80 + c % 64) ∷ []

abbrev pub as_bytes : Str → Bytes
as_bytes [] = []
as_bytes (c ∷ s) = encode_char c ++ as_bytes s

-- `to_string` of a number. The fuel bounds the number of digits.
unfoldable pub decimal : ℕ → ℕ → Str
decimal zero n = (48 + n % 10) ∷ []
decimal (suc fuel) n =
    let front = decimal fuel (n / 10) in
    if ltb n 10 then (48 + n) ∷ [] else front ++ (48 + n % 10) ∷ []

unfoldable pub nat_to_string : ℕ → Str
unfolding decimal
nat_to_string n = decimal n n

unfoldable pub int_to_string : ℤ → Str
unfolding nat_to_string
int_to_string (pos n) = nat_to_string n
int_to_string (negsuc n) = 45 ∷ nat_to_string (suc n)

-- `update_hmac_with_parts` and `update_hasher_with_parts`: what the calls of `update` append.
unfoldable pub encode_parts : List Str → Bytes
unfolding nat_to_string
encode_parts [] = []
encode_parts (part ∷ parts) =
    nat_to_string (byte_count part) ++ 58 ∷ (as_bytes part ++ 59 ∷ encode_parts parts)

abbrev pub hex_digit : ℕ → ℕ
hex_digit d = if ltb d 10 then 48 + d else 87 + d

abbrev pub hex_bytes : Bytes → Str
hex_bytes [] = []
hex_bytes (b ∷ s) = hex_digit (b / 16) ∷ hex_digit (b % 16) ∷ hex_bytes s

abbrev pub hex_digit_upper : ℕ → ℕ
hex_digit_upper d = if ltb d 10 then 48 + d else 55 + d

abbrev pub take {ℓ} : {A : Type ℓ} → ℕ → List A → List A
take zero s = []
take (suc n) [] = []
take (suc n) (x ∷ s) = x ∷ take n s

abbrev pub hex_upper : Bytes → Str
hex_upper [] = []
hex_upper (b ∷ s) = hex_digit_upper (b / 16) ∷ hex_digit_upper (b % 16) ∷ hex_upper s

unfoldable pub short_code_from_bytes : Bytes → Str
short_code_from_bytes digest = take 6 (hex_upper (take 4 digest))

-- `u64::from_be_bytes`
abbrev pub from_be_bytes : ℕ → Bytes → ℕ
from_be_bytes n [] = n
from_be_bytes n (b ∷ s) = from_be_bytes (n * 256 + b) s

-- `format!("{value:06}")` of a value below a million.
abbrev pub six_digits : ℕ → Str
six_digits v =
    (48 + v / 100000 % 10)
    ∷ (48 + v / 10000 % 10)
    ∷ (48 + v / 1000 % 10)
    ∷ (48 + v / 100 % 10)
    ∷ (48 + v / 10 % 10)
    ∷ (48 + v % 10)
    ∷ []

module _ (crates : Crates) where
  unfoldable pub digest_parts : List Str → Str
  unfolding encode_parts
  digest_parts parts = hex_bytes (crates.sha256 (encode_parts parts))

  unfoldable pub hmac_sha256 : Bytes → List Str → Bytes
  unfolding encode_parts
  hmac_sha256 key parts = crates.hmac key (encode_parts parts)

  unfoldable pub hmac_sha256_hex : Str → List Str → Str
  unfolding hmac_sha256
  hmac_sha256_hex key parts = hex_bytes (hmac_sha256 (as_bytes key) parts)

  -- `verify_slice` compares the bytes.
  unfoldable pub hmac_sha256_matches : Bytes → List Str → Bytes → Bool
  unfolding hmac_sha256
  hmac_sha256_matches key parts expected = hmac_sha256 key parts == expected

  -- The two arguments are the fresh identifiers that the code draws.
  unfoldable pub random_numeric_code : Str → Str → Str
  random_numeric_code first second =
      let digest = crates.sha256 (as_bytes (codes "pin:" ++ first ++ 58 ∷ second)) in
      six_digits (from_be_bytes 0 (take 8 digest) % 1000000)

  unfoldable pub server_random_secret : Str → Str → Str
  unfolding digest_parts
  server_random_secret first second =
      digest_parts (codes "proof-server-secret" ∷ first ∷ second ∷ [])

  -- The value of the environment variable, if it is set, and the two fresh identifiers.
  unfoldable pub server_secret_from_env : Option Str → Str → Str → Str
  unfolding trimmed_optional server_random_secret
  server_secret_from_env variable first second = elim (trimmed_optional variable) [
    | some secret ↦ secret
    | none ↦ server_random_secret first second
  ]

  unfoldable pub operator_pin_hash : Str → Str → Str → Bytes
  unfolding hmac_sha256
  operator_pin_hash server_secret challenge_id pin =
      hmac_sha256 (as_bytes server_secret) (codes "operator-pin" ∷ challenge_id ∷ pin ∷ [])

  unfoldable pub venue_secret_material : Str → Str → Str → ℤ → Str
  unfolding hmac_sha256_hex int_to_string
  venue_secret_material server_secret realm_id venue_id key_version =
      hmac_sha256_hex server_secret
        (codes "venue-secret" ∷ realm_id ∷ venue_id ∷ int_to_string key_version ∷ [])

  unfoldable pub server_keyed_display_code_hash : Str → Str → Str
  unfolding hmac_sha256_hex
  server_keyed_display_code_hash server_secret display_code =
      hmac_sha256_hex server_secret (codes "display-code" ∷ upper (trim display_code) ∷ [])

  unfoldable pub server_keyed_device_session_id_hash : Str → Str → Str
  unfolding hmac_sha256_hex
  server_keyed_device_session_id_hash server_secret device_session_id =
      hmac_sha256_hex server_secret (codes "device-session" ∷ trim device_session_id ∷ [])

-- `map(|value| value.to_string()).unwrap_or_default()`
abbrev pub int_or_default : Option ℤ → Str
int_or_default none = []
int_or_default (some n) = int_to_string n

unfoldable pub replay_parts : ProofEnvelopeInput → List Str
unfolding canonical_optional int_to_string
replay_parts input =
    codes "proof-envelope"
    ∷ trim input.subject_account_id
    ∷ canonical_optional input.challenge_id
    ∷ canonical_optional input.venue_id
    ∷ upper (canonical_optional input.display_code)
    ∷ int_or_default input.key_version
    ∷ canonical_optional input.client_nonce
    ∷ int_or_default input.observed_at_ms
    ∷ lower (canonical_optional input.coarse_location_bucket)
    ∷ canonical_optional input.device_session_id
    ∷ canonical_optional input.fallback_mode
    ∷ canonical_optional input.operator_pin
    ∷ []

module _ (crates : Crates) where
  unfoldable pub replay_key : Str → ProofEnvelopeInput → Str
  unfolding hmac_sha256_hex replay_parts
  replay_key server_secret input = hmac_sha256_hex crates server_secret (replay_parts input)
