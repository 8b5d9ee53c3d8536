-- ===== src/Proof/Keys/Ensure.antt =====
-- apps/backend/src/services/proof.rs: `ensure_active_venue_key` gives a version whose key is there.
use pi_musubi_core.Prelude.{
  ◌≡◌, subst, true, none, some, arith, inl, inr, Option-cases, some_injective, nat_eq, list_eq,
  pair_eq, int_eq,
}
use pi_musubi_core.Prelude.Int.{ℤ, pos}
use pi_musubi_core.HashMap.{HashMap, get, insert, contains_key}
use pi_musubi_core.HashMap.Laws.{get-insert, get-insert_self}
use pi_musubi_core.Proof.State.{Str, KeyId, Instant, Crates, ProofState, VenueKeyVersionRecord}
use pi_musubi_core.Proof.Keys.{first_key, ensure_active_venue_key}
use pi_musubi_core.Proof.Keys.Prune.{key_at}
use pi_musubi_core.Proof.Keys.Present.{HasKeys, put_version-ActivePresent}

contains-insert :
    (k j : KeyId) (key : VenueKeyVersionRecord) (m : HashMap KeyId VenueKeyVersionRecord)
    → contains_key j m ≡ true
    → contains_key j (insert k key m) ≡ true
unfolding contains_key
contains-insert k j key m h = ground (arith, get-insert k j key m)

contains-insert_self :
    (k : KeyId) (key : VenueKeyVersionRecord) (m : HashMap KeyId VenueKeyVersionRecord)
    → contains_key k (insert k key m) ≡ true
unfolding contains_key
contains-insert_self k key m = ground (arith, get-insert_self k key m)

module _ (crates : Crates) (s : ProofState) (realm venue : Str) (now : Instant) where
  abbrev ensured : ProofState × ℤ
  ensured = ensure_active_venue_key crates s realm venue now

  -- What holds when the venue has a version in force, and when it gets its first one.
  pub ensure_cases :
      (Q : ProofState × ℤ → Type 0)
      → ((v : ℤ) → get (realm, venue) s.active_key_version_by_venue ≡ some v → Q (s, v))
      → (get (realm, venue) s.active_key_version_by_venue ≡ none
          → Q (
            record s {
              active_key_version_by_venue =
                  insert (realm, venue) (pos 1) s.active_key_version_by_venue;
              venue_key_versions =
                  insert
                    (realm, (venue, pos 1))
                    (first_key crates s.server_secret realm venue now)
                    s.venue_key_versions;
            },
            pos 1,
          ))
      → Q (ensure_active_venue_key crates s realm venue now)
  unfolding ensure_active_venue_key
  ensure_cases Q known new =
      elim (Option-cases (get (realm, venue) s.active_key_version_by_venue)) [
        | inl e ↦ rw (e, ensure_active_venue_key) (new e)
        | inr (v, e) ↦ rw (e, ensure_active_venue_key) (known v e)
      ]

  pub ensured_present :
      HasKeys s
      → contains_key
          (realm, (venue, (ensure_active_venue_key crates s realm venue now).1))
          (ensure_active_venue_key crates s realm venue now).0.venue_key_versions
        ≡ true
  ensured_present h =
      ensure_cases (λ r. contains_key (realm, (venue, r.1)) r.0.venue_key_versions ≡ true)
        (λ v e. h.of_active (realm, venue) v e)
        (λ _.
          contains-insert_self (realm, (venue, pos 1))
            (first_key crates s.server_secret realm venue now) s.venue_key_versions)

  pub ensure-HasKeys : HasKeys s → HasKeys (ensure_active_venue_key crates s realm venue now).0
  ensure-HasKeys h =
      ensure_cases (λ r. HasKeys r.0) (λ _ _. h)
        λ _. record {
          of_challenges =
              λ id c g. contains-insert _ _ _ s.venue_key_versions (h.of_challenges id c g);
          of_active =
              put_version-ActivePresent
                (insert (realm, (venue, pos 1)) (first_key crates s.server_secret realm venue now)
                  s.venue_key_versions)
                (realm, venue) (some (pos 1)) s.active_key_version_by_venue
                (λ v e.
                  subst
                    (λ x.
                      contains_key (key_at (realm, venue) x) (
                        insert (realm, (venue, pos 1))
                          (first_key crates s.server_secret realm venue now) s.venue_key_versions)
                      ≡ true)
                    (some_injective e)
                    (contains-insert_self (realm, (venue, pos 1))
                      (first_key crates s.server_secret realm venue now) s.venue_key_versions))
                (λ v w g. contains-insert _ _ _ s.venue_key_versions (h.of_active v w g));
        }
