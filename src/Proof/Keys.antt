-- ===== src/Proof/Keys.antt =====
-- apps/backend/src/services/proof.rs: the keys of the venues and the codes that a venue displays.
pub mod Prune
pub mod Present
pub mod Ensure
use pi_musubi_core.Prelude.{
  ℕ, ◌/◌, String, Bool, true, false, ◌&&◌, ◌||◌, Option, none, some, List, [], ◌∷◌, if◌then◌else◌,
  ◌==◌, nat_eq, list_eq, pair_eq, int_eq, string_eq,
}
use pi_musubi_core.Prelude.Int.{ℤ, pos, negsuc}
use pi_musubi_core.Prelude.Text.{codes, trim}
use pi_musubi_core.HashMap.{HashMap, get, insert}
use pi_musubi_core.Proof.State.{Str, Instant, Crates, ProofState, VenueKeyVersionRecord}
use pi_musubi_core.Proof.Texts.{upper}
use pi_musubi_core.Proof.Digest.{
  as_bytes, int_to_string, hmac_sha256, short_code_from_bytes, venue_secret_material,
}

abbrev pub key_status_active : String
key_status_active = "active"

abbrev pub key_status_draining : String
key_status_draining = "draining"

abbrev pub key_status_revoked : String
key_status_revoked = "revoked"

abbrev pub display_code_window_seconds : ℕ
display_code_window_seconds = 30

-- `div_euclid` by a positive number.
unfoldable pub div_euclid : ℤ → ℕ → ℤ
div_euclid (pos n) d = pos (n / d)
div_euclid (negsuc n) d = negsuc (n / d)

module _ (crates : Crates) where
  unfoldable pub first_key : Str → Str → Str → Instant → VenueKeyVersionRecord
  unfolding venue_secret_material
  first_key server_secret realm_id venue_id now = record {
    realm_id = realm_id;
    venue_id = venue_id;
    key_version = pos 1;
    secret_material = venue_secret_material crates server_secret realm_id venue_id (pos 1);
    status = key_status_active;
    not_before = now;
    not_after = none;
    created_at = now;
  }

  -- The state with a key in force, and the key's version.
  unfoldable pub ensure_active_venue_key : ProofState → Str → Str → Instant → ProofState × ℤ
  unfolding get insert first_key
  ensure_active_venue_key store realm_id venue_id now =
      elim (get (realm_id, venue_id) store.active_key_version_by_venue) [
        | some key_version ↦ (store, key_version)
        | none ↦ (
          record store {
            active_key_version_by_venue =
                insert (realm_id, venue_id) (pos 1) store.active_key_version_by_venue;
            venue_key_versions =
                insert (realm_id, (venue_id, pos 1))
                  (first_key store.server_secret realm_id venue_id now) store.venue_key_versions;
          },
          pos 1,
        )
      ]

  unfoldable pub venue_display_code_for_window : VenueKeyVersionRecord → Instant → Str
  unfolding hmac_sha256 short_code_from_bytes int_to_string div_euclid
  venue_display_code_for_window key at =
      let window = div_euclid (crates.timestamp at) display_code_window_seconds in
      short_code_from_bytes (
        hmac_sha256 crates (as_bytes key.secret_material) (
          codes "venue-display-code"
          ∷ key.realm_id
          ∷ key.venue_id
          ∷ int_to_string key.key_version
          ∷ int_to_string window
          ∷ []))

  unfoldable pub display_code_valid_for_key : VenueKeyVersionRecord → Str → Instant → Bool
  unfolding venue_display_code_for_window
  display_code_valid_for_key key display_code received_at =
      let normalized = upper (trim display_code) in
      (venue_display_code_for_window key received_at == normalized)
      || (venue_display_code_for_window key
            (crates.sub_seconds received_at display_code_window_seconds)
          == normalized)
