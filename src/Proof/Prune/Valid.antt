-- ===== src/Proof/Prune/Valid.antt =====
-- apps/backend/src/services/proof.rs: the pruning keeps the keys that the challenges need.
use pi_musubi_core.Prelude.{nat_eq, list_eq, pair_eq, int_eq}
use pi_musubi_core.HashMap.{Distinct}
use pi_musubi_core.HashMap.Retain.{Distinct-retain}
use pi_musubi_core.Proof.State.{Instant, Crates, ProofState}
use pi_musubi_core.Proof.Keys.Prune.{prune_venue_key_state}
use pi_musubi_core.Proof.Keys.Present.{HasKeys, prune_venue_key_state-HasKeys}
use pi_musubi_core.Proof.Prune.{prune_venue_challenge_state, prune_ephemeral_proof_state}
use pi_musubi_core.Proof.Prune.Challenges.{
  without-some, prune_challenges, prune_keys, prune_active, prune-Distinct,
}

-- What the maps of the state promise: distinct keys, and no key of a venue that is missing.
pub record IsKeyed (s : ProofState) : Type 0 where
  pub distinct_challenges : Distinct s.venue_challenges_by_id
  pub distinct_keys : Distinct s.venue_key_versions
  pub has_keys : HasKeys s

module _ (crates : Crates) (s : ProofState) (now : Instant) where
  prune_challenges-HasKeys :
      Distinct s.venue_challenges_by_id
      → HasKeys s
      → HasKeys (prune_venue_challenge_state crates s now)
  unfolding prune_venue_challenge_state
  prune_challenges-HasKeys d h = record {
    of_challenges =
        λ id c g. h.of_challenges id c (without-some _ s.venue_challenges_by_id d id c g);
    of_active = h.of_active;
  }

  -- The pruning loses no key that a challenge or a venue in the state names.
  pub prune-IsKeyed : IsKeyed s → IsKeyed (prune_ephemeral_proof_state crates s now)
  unfolding prune_venue_key_state prune_venue_challenge_state
  prune-IsKeyed v =
      let d : Distinct (prune_venue_challenge_state crates s now).venue_key_versions =
        v.distinct_keys in
      let keys =
        prune_venue_key_state-HasKeys (prune_venue_challenge_state crates s now) d
          (prune_challenges-HasKeys v.distinct_challenges v.has_keys) in
      record {
        distinct_challenges = prune-Distinct crates s now v.distinct_challenges;
        distinct_keys =
            rw (prune_keys crates s now) (Distinct-retain _ s.venue_key_versions v.distinct_keys);
        has_keys = record {
          of_challenges = λ id c g.
              rw (prune_keys crates s now)
                (keys.of_challenges id c (rw (prune_challenges crates s now) at g));
          of_active = λ venue version g.
              rw (prune_keys crates s now)
                (keys.of_active venue version (rw (prune_active crates s now) at g));
        };
      }
