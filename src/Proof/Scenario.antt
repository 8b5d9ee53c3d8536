-- ===== src/Proof/Scenario.antt =====
-- apps/backend/src/services/proof.rs: concrete calls, with a checksum for the hash functions.
use pi_musubi_core.Prelude.{
  ℕ, ◌+◌, ◌-◌, ◌*◌, ◌/◌, ◌%◌, Option, none, some, List, [], ◌∷◌, nat_eq, list_eq, string_eq,
}
use pi_musubi_core.Prelude.Int.{ℤ, pos, negsuc, ◌-ℤ◌}
use pi_musubi_core.Prelude.Text.{codes}
use pi_musubi_core.Proof.State.{
  Str, Instant, Crates, ProofState, VenueChallengeRecord, with_server_secret,
}
use pi_musubi_core.Proof.Messages.{StartProofChallengeInput, ProofEnvelopeInput}
use pi_musubi_core.Proof.Keys.{first_key, venue_display_code_for_window}
use pi_musubi_core.Proof.Start.{StartIds, StartRequest, issued_challenge, start_proof_challenge}
use pi_musubi_core.Proof.Submit.{SubmitIds, submit_proof_envelope_at}
use pi_musubi_core.Proof.State.{VenueKeyVersionRecord}

-- A checksum in place of the hash functions.
abbrev pub mix : ℕ → List ℕ → ℕ
mix h [] = h
mix h (b ∷ s) = mix ((h * 31 + b) % 4294967296) s

abbrev pub four_bytes : ℕ → List ℕ
four_bytes n = (n / 16777216) ∷ (n / 65536 % 256) ∷ (n / 256 % 256) ∷ (n % 256) ∷ []

abbrev pub from_millis : ℤ → Option Instant
from_millis (pos n) = some (n / 1000)
from_millis (negsuc n) = none

-- Instants in seconds.
abbrev pub seconds : Crates
seconds = record {
  add_seconds = λ t n. t + n;
  sub_seconds = λ t n. t - n;
  timestamp = λ t. pos t;
  from_timestamp_millis = from_millis;
  seconds_between = λ a b. pos a -ℤ pos b;
  sha256 = λ s. four_bytes (mix 7 s);
  hmac = λ k s. four_bytes (mix (mix 11 k) s);
}

abbrev pub visit : StartProofChallengeInput
visit = record {
  subject_account_id = codes "alice";
  venue_id = codes " cafe ";
  realm_id = codes "town";
  fallback_mode = codes "none";
  operator_id = none;
}

abbrev pub first_ids : StartIds
first_ids = record {
  challenge_id = codes "c1";
  client_nonce = codes "n1";
  first_pin_seed = codes "p1";
  second_pin_seed = codes "p2";
  audit_id = codes "a1";
}

unfoldable pub issued : ProofState
unfolding start_proof_challenge with_server_secret
issued = (start_proof_challenge seconds visit first_ids 100 (with_server_secret (codes "s"))).0

unfoldable pub shown_code : Str
unfolding venue_display_code_for_window first_key
shown_code =
    venue_display_code_for_window seconds
      (first_key seconds (codes "s") (codes "town") (codes "cafe") 100) 115

abbrev pub envelope : Str → ProofEnvelopeInput
envelope code = record {
  subject_account_id = codes "alice";
  challenge_id = some (codes "c1");
  venue_id = some (codes "cafe");
  display_code = some code;
  key_version = some (pos 1);
  client_nonce = some (codes "n1");
  observed_at_ms = some (pos 115000);
  coarse_location_bucket = none;
  device_session_id = none;
  fallback_mode = none;
  operator_pin = none;
}

abbrev pub submit_ids : Str → SubmitIds
submit_ids id = record { proof_submission_id = id; proof_verification_id = id }

abbrev pub nothing : Option Str
nothing = none

abbrev pub first_submission : SubmitIds
first_submission = submit_ids (codes "s1")

abbrev pub second_submission : SubmitIds
second_submission = submit_ids (codes "s2")

unfoldable pub redeemed : ProofState
unfolding issued shown_code submit_proof_envelope_at
redeemed = (submit_proof_envelope_at seconds (envelope shown_code) first_submission 120 issued).0

-- Three wrong codes, each under its own replay key.
unfoldable pub after_one : ProofState
unfolding issued submit_proof_envelope_at
after_one =
    (submit_proof_envelope_at seconds (envelope (codes "AAAAA1")) (submit_ids (codes "s1")) 120
      issued).0

unfoldable pub after_two : ProofState
unfolding after_one submit_proof_envelope_at
after_two =
    (submit_proof_envelope_at seconds (envelope (codes "AAAAA2")) (submit_ids (codes "s2")) 121
      after_one).0

unfoldable pub after_three : ProofState
unfolding after_two submit_proof_envelope_at
after_three =
    (submit_proof_envelope_at seconds (envelope (codes "AAAAA3")) (submit_ids (codes "s3")) 122
      after_two).0

abbrev pub first_request : StartRequest
first_request = record {
  venue_id = codes "cafe";
  realm_id = codes "town";
  subject_account_id = codes "alice";
  fallback_mode = "none";
}

abbrev pub first_challenge : VenueChallengeRecord
first_challenge = issued_challenge seconds first_request first_ids 100 (pos 1) none

-- The key of the venue, and its code within the window of the submission.
abbrev pub cafe_key : VenueKeyVersionRecord
cafe_key = first_key seconds (codes "s") (codes "town") (codes "cafe") 100
