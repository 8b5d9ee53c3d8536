-- ===== src/Proof/Prune/Indexed.antt =====
-- apps/backend/src/services/proof.rs: the replay index has the key of every submission that is
-- there, and the pruning makes it anew so.
use pi_musubi_core.Prelude.{
  ◌≡◌, true, some, List, [], ◌∷◌, arith, inl, inr, Bool-cases, ◌==◌, All, All-mono, nat_eq, list_eq,
}
use pi_musubi_core.HashMap.{HashMap, get, insert, contains_key}
use pi_musubi_core.HashMap.Laws.{get-insert, get-insert_self}
use pi_musubi_core.Proof.State.{Str, Instant, Crates, ProofState, ProofSubmissionRecord}
use pi_musubi_core.Proof.Sort.{All_of_sort_by}
use pi_musubi_core.Proof.Keys.Prune.{prune_venue_key_state}
use pi_musubi_core.Proof.Prune.{
  is_nil, submission_earlier, index_submissions, expired_submission_ids, drop_submissions,
  prune_venue_challenge_state, prune_operator_pin_audit_state, prune_proof_submission_state,
  prune_ephemeral_proof_state,
}
use pi_musubi_core.Proof.Challenge.{proof_submission_retention_seconds}

-- The index has the replay keys of these submissions.
abbrev pub Indexed : HashMap Str Str → List (Str × ProofSubmissionRecord) → Type 0
Indexed index = All (λ x. contains_key x.1.replay_key index ≡ true)

abbrev pub IsIndexed : ProofState → Type 0
IsIndexed s = Indexed s.proof_submission_id_by_replay_key s.proof_submissions_by_id

contains_key-insert :
    (j k v : Str) (index : HashMap Str Str)
    → contains_key j index ≡ true
    → contains_key j (insert k v index) ≡ true
unfolding contains_key
contains_key-insert j k v index h = ground (arith, get-insert k j v index)

contains_key-insert_self :
    (k v : Str) (index : HashMap Str Str) → contains_key k (insert k v index) ≡ true
unfolding contains_key
contains_key-insert_self k v index = ground (arith, get-insert_self k v index)

index_submissions_keeps :
    (j : Str) (xs : List (Str × ProofSubmissionRecord)) (index : HashMap Str Str)
    → contains_key j index ≡ true
    → contains_key j (index_submissions xs index) ≡ true
unfolding index_submissions
index_submissions_keeps j [] index h = h
index_submissions_keeps j ((id, x) ∷ xs) index h =
    index_submissions_keeps j xs (insert x.replay_key id index)
      (contains_key-insert j x.replay_key id index h)

index_submissions-Indexed :
    (xs : List (Str × ProofSubmissionRecord)) (index : HashMap Str Str)
    → Indexed (index_submissions xs index) xs
unfolding index_submissions
index_submissions-Indexed [] index = tt
index_submissions-Indexed ((id, x) ∷ xs) index = (
  index_submissions_keeps x.replay_key xs (insert x.replay_key id index)
      (contains_key-insert_self x.replay_key id index),
  index_submissions-Indexed xs (insert x.replay_key id index),
)

drop_submissions-IsIndexed : (ids : List Str) (s : ProofState) → IsIndexed (drop_submissions ids s)
unfolding drop_submissions
drop_submissions-IsIndexed ids s =
    All_of_sort_by submission_earlier _ _ (index_submissions-Indexed _ [])

pub prune-IsIndexed :
    (crates : Crates) (s : ProofState) (now : Instant)
    → IsIndexed s
    → IsIndexed (prune_ephemeral_proof_state crates s now)
unfolding prune_ephemeral_proof_state prune_operator_pin_audit_state prune_venue_key_state
    prune_venue_challenge_state prune_proof_submission_state
prune-IsIndexed crates s now h =
    let cutoff = crates.sub_seconds now proof_submission_retention_seconds in
    let ids = expired_submission_ids s.proof_submissions_by_id cutoff in
    let before =
      prune_operator_pin_audit_state crates
        (prune_venue_key_state (prune_venue_challenge_state crates s now)) now in
    elim (Bool-cases (is_nil ids)) [
      | inl e ↦ rw e h
      | inr e ↦ rw e (drop_submissions-IsIndexed ids before)
    ]

All-insert :
    (P : ProofSubmissionRecord → Type 0) (k : Str) (v : ProofSubmissionRecord)
    (m : HashMap Str ProofSubmissionRecord)
    → P v
    → All (λ x. P x.1) m
    → All (λ x. P x.1) (insert k v m)
unfolding insert
All-insert P k v [] h hs = (h, tt)
All-insert P k v ((j, w) ∷ m) h hs = elim (Bool-cases (j == k)) [
  | inl e ↦ rw (e, insert) (h, hs.1)
  | inr e ↦ rw (e, insert) (hs.0, All-insert P k v m h hs.1)
]

-- A submission that is written with its replay key.
pub insert-Indexed :
    (id : Str) (x : ProofSubmissionRecord) (index : HashMap Str Str)
    (m : HashMap Str ProofSubmissionRecord)
    → Indexed index m
    → Indexed (insert x.replay_key id index) (insert id x m)
insert-Indexed id x index m h =
    All-insert (λ y. contains_key y.replay_key (insert x.replay_key id index) ≡ true) id x m
      (contains_key-insert_self x.replay_key id index)
      (All-mono (λ y. contains_key y.1.replay_key index ≡ true) _ m
        (λ y k. contains_key-insert y.1.replay_key x.replay_key id index k) h)

pub Indexed-get :
    (id : Str) (x : ProofSubmissionRecord) (index : HashMap Str Str)
    (m : HashMap Str ProofSubmissionRecord)
    → Indexed index m
    → get id m ≡ some x
    → contains_key x.replay_key index ≡ true
unfolding get
Indexed-get id x index [] h g = absurd (cc)
Indexed-get id x index ((j, y) ∷ m) h g = elim (Bool-cases (j == id)) [
  | inl here ↦ ground (arith, h.0)
  | inr there ↦ Indexed-get id x index m h.1 (ground arith)
]
