-- ===== src/Orchestration/Store/Outbox/Claim.antt =====
-- apps/backend/crates/orchestration/src/store.rs: which message `claim_ready_outbox` takes.
use pi_musubi_core.Prelude.{
  ◌^◌, ◌<◌, ◌≡◌, refl, sym, ap, ◌∙◌, subst, inl, inr, Bool, true, false, Option, none, some, List,
  [], ◌∷◌, arith, nat_eq, All, All-filter, filter_holds, All_of_filter, All-mono, Option-cases,
  Bool-cases,
}
use pi_musubi_core.HashMap.{get, values}
use pi_musubi_core.HashMap.Laws.{values-All, get-All}
use pi_musubi_core.Orchestration.Model.{Uuid, DateTime, OutboxMessage}
use pi_musubi_core.Orchestration.Store.{InMemoryOrchestrationStore}
use pi_musubi_core.Orchestration.Store.Outbox.{candidate, is_ready, key_lt, min_by_key}
use pi_musubi_core.Orchestration.Store.Outbox.Valid.{IsOutboxOf}

min_by_key-none : (xs : List OutboxMessage) → min_by_key xs ≡ none → xs ≡ []
unfolding min_by_key
min_by_key-none [] h = refl
min_by_key-none (x ∷ xs) h = ground arith

min_by_key-All {κ} :
    (P : OutboxMessage → Type κ) (xs : List OutboxMessage) (m : OutboxMessage)
    → All P xs
    → min_by_key xs ≡ some m
    → P m
unfolding min_by_key
min_by_key-All P [] m h e = absurd (cc)
min_by_key-All P (x ∷ xs) m h e = elim (Option-cases (min_by_key xs)) [
  | inl last ↦ subst P {x = x} {y = m} (ground arith) h.0
  | inr (n, f) ↦ elim (Bool-cases (key_lt n x)) [
    | inl less ↦ subst P {x = n} {y = m} (ground arith) (min_by_key-All P xs n h.1 f)
    | inr not_less ↦ subst P {x = x} {y = m} (ground arith) h.0
  ]
]

key_lt_trans :
    (a b c : OutboxMessage) → key_lt a b ≡ false → key_lt b c ≡ false → key_lt a c ≡ false
unfolding key_lt
key_lt_trans a b c h k = ground arith

key_lt_irrefl : (a : OutboxMessage) → key_lt a a ≡ false
unfolding key_lt
key_lt_irrefl a = ground arith

key_lt_asym : (a b : OutboxMessage) → key_lt a b ≡ true → key_lt b a ≡ false
unfolding key_lt
key_lt_asym a b h = ground arith

min_by_key_least :
    (xs : List OutboxMessage) (m : OutboxMessage)
    → min_by_key xs ≡ some m
    → All (λ n. key_lt n m ≡ false) xs
unfolding min_by_key
min_by_key_least [] m e = tt
min_by_key_least (x ∷ xs) m e = elim (Option-cases (min_by_key xs)) [
  | inl last ↦
      let l : xs ≡ [] = min_by_key-none xs last in rw l (ground (arith, key_lt_irrefl x), tt)
  | inr (n, f) ↦ elim (Bool-cases (key_lt n x)) [
    | inl less ↦ (
      ground (arith, key_lt_asym n x),
      All-mono _ _ xs (λ y h. ground arith) (min_by_key_least xs n f),
    )
    | inr not_less ↦ (
      ground (arith, key_lt_irrefl x),
      All-mono _ _ xs (λ y h. ground (arith, key_lt_trans y n x h not_less))
          (min_by_key_least xs n f),
    )
  ]
]

not_ready : (b : Bool) → (b ≡ true → ⊥) → b ≡ false
not_ready true h = absurd (h refl)
not_ready false h = refl

module _ (now : DateTime) (s : InMemoryOrchestrationStore) (v : IsOutboxOf s) where
  stored : All (λ m. get m.event_id s.outbox_messages ≡ some m) (values s.outbox_messages)
  stored =
      values-All _ s.outbox_messages v.distinct
        λ k m g. subst (λ j. get j s.outbox_messages ≡ some m) (sym (v.row k m g).keyed) g

  -- The candidate is a stored message that is ready.
  pub candidate_ready :
      (m : OutboxMessage)
      → candidate now s ≡ some m
      → (get m.event_id s.outbox_messages ≡ some m) × (is_ready now m ≡ true)
  unfolding candidate
  candidate_ready m e = (
    min_by_key-All _ _ m (All-filter _ (is_ready now) _ stored) e,
    min_by_key-All _ _ m (filter_holds (is_ready now) (values s.outbox_messages)) e,
  )

  -- No ready message comes before it.
  pub candidate_least :
      (m : OutboxMessage)
      → candidate now s ≡ some m
      → (k : Uuid) (n : OutboxMessage) → get k s.outbox_messages ≡ some n
      → is_ready now n ≡ true
      → key_lt n m ≡ false
  unfolding candidate
  candidate_least m e k n g =
      get-All _ k s.outbox_messages
        (All_of_filter (λ n. key_lt n m ≡ false) (is_ready now) (values s.outbox_messages)
          (min_by_key_least _ m e))
        g

  -- Without a candidate no message is ready.
  pub candidate-none :
      candidate now s ≡ none
      → (k : Uuid) (n : OutboxMessage) → get k s.outbox_messages ≡ some n
      → is_ready now n ≡ false
  unfolding candidate
  candidate-none e k n g =
      get-All _ k s.outbox_messages
        (All-mono (λ x. is_ready now x ≡ true → ⊥) (λ x. is_ready now x ≡ false) _
          (λ x h. not_ready (is_ready now x) h)
          (All_of_filter (λ x. ⊥) (is_ready now) (values s.outbox_messages)
            (subst (All (λ _. ⊥)) (sym (min_by_key-none _ e)) tt)))
        g

-- The messages of two stores agree at every event.
abbrev pub SameMessages : InMemoryOrchestrationStore → InMemoryOrchestrationStore → Type 0
SameMessages s t = (k : Uuid) → get k s.outbox_messages ≡ get k t.outbox_messages

-- Two keys of which neither comes first are one key.
key_lt_antisym :
    (a b : OutboxMessage)
    → a.causal_order < 2 ^ 63
    → b.causal_order < 2 ^ 63
    → key_lt a b ≡ false
    → key_lt b a ≡ false
    → a.causal_order ≡ b.causal_order
unfolding key_lt
key_lt_antisym a b p q h k = ground arith

module _ (now : DateTime) (s t : InMemoryOrchestrationStore) where
  same_candidate :
      IsOutboxOf s
      → IsOutboxOf t
      → s.next_causal_order < 2 ^ 63
      → SameMessages s t
      → (m n : OutboxMessage) → candidate now s ≡ some m
      → candidate now t ≡ some n
      → m ≡ n
  same_candidate v w bound same m n em en =
      let (gm, rm) = candidate_ready now s v m em in
      let (gn, rn) = candidate_ready now t w n en in
      let gn' : get n.event_id s.outbox_messages ≡ some n = same n.event_id ∙ gn in
      let gm' : get m.event_id t.outbox_messages ≡ some m = sym (same m.event_id) ∙ gm in
      let a = candidate_least now s v m em n.event_id n gn' rn in
      let b = candidate_least now t w n en m.event_id m gm' rm in
      let cm = (v.row m.event_id m gm).counted in
      let cn = (v.row n.event_id n gn').counted in
      let o = key_lt_antisym m n (omega arith) (omega arith) b a in
      let ids : m.event_id ≡ n.event_id = v.one_order m.event_id n.event_id m n gm gn' o in
      ground arith

-- Two stores with well-formed outboxes, fewer than 2^63 writes and the same messages have the same
-- candidate, whatever the order in which their maps list the messages.
pub candidate-SameMessages :
    (now : DateTime) (s t : InMemoryOrchestrationStore)
    → IsOutboxOf s
    → IsOutboxOf t
    → s.next_causal_order < 2 ^ 63
    → SameMessages s t
    → candidate now s ≡ candidate now t
candidate-SameMessages now s t v w bound same = elim (Option-cases (candidate now s)) [
  | inl es ↦ elim (Option-cases (candidate now t)) [
    | inl et ↦ es ∙ sym et
    | inr (n, et) ↦
        let (g, r) = candidate_ready now t w n et in
        let f = candidate-none now s v es n.event_id n (same n.event_id ∙ g) in absurd (cc)
  ]
  | inr (m, es) ↦ elim (Option-cases (candidate now t)) [
    | inl et ↦
        let (g, r) = candidate_ready now s v m es in
        let f = candidate-none now t w et m.event_id m (sym (same m.event_id) ∙ g) in absurd (cc)
    | inr (n, et) ↦
        es
        ∙ ap {B = Option OutboxMessage} some (same_candidate now s t v w bound same m n es et)
        ∙ sym et
  ]
]
