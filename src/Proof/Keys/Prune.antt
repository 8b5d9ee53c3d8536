-- ===== src/Proof/Keys/Prune.antt =====
-- apps/backend/src/services/proof.rs: `prune_venue_key_state`. A set is a list without repeated
-- values, in the set's iteration order.

use pi_musubi_core.Prelude.{
  ◌&&◌, Option, none, some, List, [], ◌∷◌, map, if◌then◌else◌, PartialEq, ◌==◌, nat_eq, list_eq,
  pair_eq, int_eq,
}
use pi_musubi_core.Prelude.Int.{ℤ, leb_ℤ}
use pi_musubi_core.HashMap.{HashMap, get, insert, contains_key, values}
use pi_musubi_core.HashMap.Select.{elem}
use pi_musubi_core.HashMap.Retain.{retain}
use pi_musubi_core.Proof.State.{Str, KeyId, ProofState, VenueChallengeRecord, VenueKeyVersionRecord}

abbrev pub Venue : Type 0
Venue = Str × Str

-- `HashSet::insert` and `collect`
unfoldable pub set_insert : {A : Type 0} ⦃e : PartialEq A⦄ → A → List A → List A
set_insert a s = if elem a s then s else a ∷ s

unfoldable pub to_set : {A : Type 0} ⦃e : PartialEq A⦄ → List A → List A
unfolding set_insert
to_set [] = []
to_set (a ∷ s) = set_insert a (to_set s)

abbrev pub venue_of : VenueChallengeRecord → Venue
venue_of challenge = (challenge.realm_id, challenge.venue_id)

abbrev pub key_of : VenueChallengeRecord → KeyId
key_of challenge = (challenge.realm_id, (challenge.venue_id, challenge.venue_key_version))

abbrev pub key_at : Venue → ℤ → KeyId
key_at venue version = (venue.0, (venue.1, version))

abbrev pub add_key : Venue → Option ℤ → List KeyId → List KeyId
add_key venue none ids = ids
add_key venue (some version) ids = set_insert (key_at venue version) ids

-- The first loop over the venues.
unfoldable pub add_active_keys : HashMap Venue ℤ → List Venue → List KeyId → List KeyId
unfolding get set_insert
add_active_keys active [] ids = ids
add_active_keys active (venue ∷ venues) ids =
    add_active_keys active venues (add_key venue (get venue active) ids)

abbrev pub max_version : Option ℤ → ℤ → ℤ
max_version none v = v
max_version (some w) v = if leb_ℤ v w then w else v

-- The largest version of a venue's keys.
unfoldable pub latest_version : Venue → HashMap KeyId VenueKeyVersionRecord → Option ℤ
latest_version venue [] = none
latest_version venue ((id, key) ∷ keys) =
    let rest = latest_version venue keys in
    if (id.0 == venue.0) && (id.1.0 == venue.1) then some (max_version rest id.1.1) else rest

abbrev pub put_version : Venue → Option ℤ → HashMap Venue ℤ → HashMap Venue ℤ
put_version venue none rebuilt = rebuilt
put_version venue (some version) rebuilt = insert venue version rebuilt

-- The version in force when its key is there, else the latest.
abbrev pub version_for : HashMap KeyId VenueKeyVersionRecord → Venue → Option ℤ → Option ℤ
version_for keys venue none = latest_version venue keys
version_for keys venue (some version) =
    if contains_key (key_at venue version) keys then some version else latest_version venue keys

-- The second loop over the venues.
unfoldable pub rebuild_active :
    HashMap KeyId VenueKeyVersionRecord
    → HashMap Venue ℤ
    → List Venue
    → HashMap Venue ℤ
    → HashMap Venue ℤ
unfolding get insert contains_key latest_version
rebuild_active keys previous [] rebuilt = rebuilt
rebuild_active keys previous (venue ∷ venues) rebuilt =
    rebuild_active keys previous venues
      (put_version venue (version_for keys venue (get venue previous)) rebuilt)

unfoldable pub retained_key_ids : ProofState → List KeyId
unfolding to_set values add_active_keys
retained_key_ids store =
    add_active_keys store.active_key_version_by_venue
      (to_set (map venue_of (values store.venue_challenges_by_id)))
      (to_set (map key_of (values store.venue_challenges_by_id)))

unfoldable pub prune_venue_key_state : ProofState → ProofState
unfolding to_set values retained_key_ids retain rebuild_active
prune_venue_key_state store =
    let retained_venues = to_set (map venue_of (values store.venue_challenges_by_id)) in
    let keys = retain (λ id _. elem id (retained_key_ids store)) store.venue_key_versions in
    record store {
      venue_key_versions = keys;
      active_key_version_by_venue =
          rebuild_active keys store.active_key_version_by_venue retained_venues [];
    }
