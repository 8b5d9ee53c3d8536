-- ===== src/Proof/Keys/Present.antt =====
-- apps/backend/src/services/proof.rs: no key that a challenge or a venue names is missing.
use pi_musubi_core.Prelude.{
  ◌≡◌, refl, true, ◌||◌, Option, none, some, List, [], ◌∷◌, map, arith, inl, inr, Bool-cases,
  PartialEq, subst, ◌==◌, beq_refl, nat_eq, list_eq, pair_eq, int_eq, int_beq_iff, pair_beq_iff,
}
use pi_musubi_core.Prelude.Int.{ℤ}
use pi_musubi_core.HashMap.{HashMap, get, contains_key, values, Distinct}
use pi_musubi_core.HashMap.Laws.{get-insert}
use pi_musubi_core.HashMap.Select.{elem}
use pi_musubi_core.HashMap.Retain.{retain, get-retain}
use pi_musubi_core.Proof.State.{Str, KeyId, ProofState, VenueChallengeRecord, VenueKeyVersionRecord}
use pi_musubi_core.Proof.Keys.Prune.{
  Venue, set_insert, to_set, venue_of, key_of, key_at, add_key, add_active_keys, latest_version,
  put_version, version_for, rebuild_active, retained_key_ids, prune_venue_key_state,
}

module _ {A : Type 0} ⦃e : PartialEq A⦄ where
  elem-set_insert : (a b : A) (s : List A) → elem a (set_insert b s) ≡ ((b == a) || elem a s)
  unfolding set_insert
  elem-set_insert a b s = elim (Bool-cases (elem b s)) [
    | inl h ↦ elim (Bool-cases (b == a)) [
      | inl k ↦ rw (h, set_insert, k) (subst (λ x. elem x s ≡ true) ((e.decides b a).0 k) h)
      | inr k ↦ ground arith
    ]
    | inr h ↦ ground arith
  ]

  pub elem-to_set : (a : A) (s : List A) → elem a (to_set s) ≡ elem a s
  unfolding to_set
  elem-to_set a [] = refl
  elem-to_set a (b ∷ s) = ground (arith, elem-set_insert a b (to_set s), elem-to_set a s)

pub elem-values :
    {K V A : Type 0} ⦃key : PartialEq K⦄ ⦃e : PartialEq A⦄ (f : V → A) (k : K) (m : HashMap K V)
    {v : V}
    → get k m ≡ some v
    → elem (f v) (map f (values m)) ≡ true
unfolding get values
elem-values f k [] h = absurd (cc)
elem-values ⦃e⦄ f k ((j, w) ∷ m) {v} h = ground (arith, elem-values f k m {v = v}, beq_refl (f v))

module _ (active : HashMap Venue ℤ) where
  elem-add_key :
      (k : KeyId) (venue : Venue) (o : Option ℤ) (ids : List KeyId)
      → elem k ids ≡ true
      → elem k (add_key venue o ids) ≡ true
  elem-add_key k venue none ids h = h
  elem-add_key k venue (some v) ids h = ground (arith, elem-set_insert k (key_at venue v) ids)

  add_active_keys-keeps :
      (k : KeyId) (venues : List Venue) (ids : List KeyId)
      → elem k ids ≡ true
      → elem k (add_active_keys active venues ids) ≡ true
  unfolding add_active_keys
  add_active_keys-keeps k [] ids h = h
  add_active_keys-keeps k (venue ∷ venues) ids h =
      add_active_keys-keeps k venues (add_key venue (get venue active) ids)
        (elem-add_key k venue (get venue active) ids h)

contains-retain :
    (k : KeyId) (ids : List KeyId) (keys : HashMap KeyId VenueKeyVersionRecord)
    → Distinct keys
    → elem k ids ≡ true
    → contains_key k keys ≡ true
    → contains_key k (retain (λ id _. elem id ids) keys) ≡ true
unfolding contains_key
contains-retain k ids keys d h c = ground (arith, get-retain (λ id _. elem id ids) k keys d)

contains-cons :
    (k id : KeyId) (key : VenueKeyVersionRecord) (keys : HashMap KeyId VenueKeyVersionRecord)
    → contains_key k ((id, key) ∷ keys) ≡ (id == k || contains_key k keys)
unfolding contains_key get
contains-cons k id key keys = ground arith

latest_version-present :
    (venue : Venue) (keys : HashMap KeyId VenueKeyVersionRecord) (v : ℤ)
    → latest_version venue keys ≡ some v
    → contains_key (key_at venue v) keys ≡ true
unfolding latest_version
latest_version-present venue [] v h = absurd (cc)
latest_version-present venue ((id, key) ∷ keys) v h = ground (
  arith,
  contains-cons (key_at venue v) id key keys,
  latest_version-present venue keys v,
  int_beq_iff id.1.1 v,
)

version_for-present :
    (keys : HashMap KeyId VenueKeyVersionRecord) (venue : Venue) (o : Option ℤ) (v : ℤ)
    → version_for keys venue o ≡ some v
    → contains_key (key_at venue v) keys ≡ true
version_for-present keys venue none v h = latest_version-present venue keys v h
version_for-present keys venue (some w) v h = ground (arith, latest_version-present venue keys v)

-- Each version in force has its key.
abbrev pub ActivePresent : HashMap KeyId VenueKeyVersionRecord → HashMap Venue ℤ → Type 0
ActivePresent keys active =
    (venue : Venue) (v : ℤ) → get venue active ≡ some v → contains_key (key_at venue v) keys ≡ true

pub put_version-ActivePresent :
    (keys : HashMap KeyId VenueKeyVersionRecord) (venue : Venue) (o : Option ℤ)
    (active : HashMap Venue ℤ)
    → ((v : ℤ) → o ≡ some v → contains_key (key_at venue v) keys ≡ true)
    → ActivePresent keys active
    → ActivePresent keys (put_version venue o active)
put_version-ActivePresent keys venue none active here rest = rest
put_version-ActivePresent keys venue (some w) active here rest = λ j v h.
    elim (Bool-cases (venue == j)) [
      | inl same ↦
          subst (λ x. contains_key (key_at x v) keys ≡ true) ((pair_beq_iff venue j).0 same)
            (here v (ground (arith, get-insert venue j w active)))
      | inr other ↦ rest j v (ground (arith, get-insert venue j w active))
    ]

rebuild_active-ActivePresent :
    (keys : HashMap KeyId VenueKeyVersionRecord) (previous : HashMap Venue ℤ) (venues : List Venue)
    (rebuilt : HashMap Venue ℤ)
    → ActivePresent keys rebuilt
    → ActivePresent keys (rebuild_active keys previous venues rebuilt)
unfolding rebuild_active
rebuild_active-ActivePresent keys previous [] rebuilt h = h
rebuild_active-ActivePresent keys previous (venue ∷ venues) rebuilt h =
    rebuild_active-ActivePresent keys previous venues _ (
      put_version-ActivePresent keys venue (version_for keys venue (get venue previous)) rebuilt
        (λ v e. version_for-present keys venue (get venue previous) v e) h)

pub record HasKeys (s : ProofState) : Type 0 where
  pub of_challenges :
      (id : Str) (c : VenueChallengeRecord)
      → get id s.venue_challenges_by_id ≡ some c
      → contains_key (key_of c) s.venue_key_versions ≡ true
  pub of_active : ActivePresent s.venue_key_versions s.active_key_version_by_venue

pub prune_venue_key_state-HasKeys :
    (s : ProofState) → Distinct s.venue_key_versions → HasKeys s → HasKeys (prune_venue_key_state s)
unfolding prune_venue_key_state retained_key_ids get
prune_venue_key_state-HasKeys s d h = record {
  of_challenges = λ id c g.
      contains-retain (key_of c) (retained_key_ids s) s.venue_key_versions d
        (add_active_keys-keeps s.active_key_version_by_venue (key_of c)
          (to_set (map venue_of (values s.venue_challenges_by_id)))
          (to_set (map key_of (values s.venue_challenges_by_id)))
          (ground (
            arith,
            elem-to_set (key_of c) (map key_of (values s.venue_challenges_by_id)),
            elem-values key_of id s.venue_challenges_by_id {v = c} g,
          )))
        (h.of_challenges id c g);
  of_active =
      rebuild_active-ActivePresent _ s.active_key_version_by_venue
        (to_set (map venue_of (values s.venue_challenges_by_id))) [] (λ venue v g. absurd (cc));
}
