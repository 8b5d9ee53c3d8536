-- ===== src/Settlement/Capabilities.antt =====
-- apps/backend/crates/settlement-domain/src/descriptor.rs: the capabilities of a backend.
pub mod Canonical
use pi_musubi_core.Prelude.{
  ℕ, ◌≡◌, Bool, true, false, ◌||◌, List, [], ◌∷◌, ltb, nat_beq, if◌then◌else◌,
}

pub data SettlementCapability : Type 0 where
  receipt_verify hold_value release_value refund_value compensate_value : SettlementCapability
  allocate_treasury attest_execution reconcile_status normalize_callback : SettlementCapability

-- The derived order and equality, by the discriminant.
unfoldable pub capability_index : SettlementCapability → ℕ
capability_index receipt_verify = 0
capability_index hold_value = 1
capability_index release_value = 2
capability_index refund_value = 3
capability_index compensate_value = 4
capability_index allocate_treasury = 5
capability_index attest_execution = 6
capability_index reconcile_status = 7
capability_index normalize_callback = 8

abbrev pub capability_beq : SettlementCapability → SettlementCapability → Bool
capability_beq a b = nat_beq (capability_index a) (capability_index b)

abbrev pub contains : List SettlementCapability → SettlementCapability → Bool
contains [] c = false
contains (x ∷ xs) c = capability_beq x c || contains xs c

-- `sort_unstable`: equal capabilities cannot be told apart, so the result is the sorted list.
unfoldable pub insert_sorted :
    SettlementCapability → List SettlementCapability → List SettlementCapability
insert_sorted c [] = c ∷ []
insert_sorted c (x ∷ xs) =
    let rest = insert_sorted c xs in
    if ltb (capability_index x) (capability_index c) then x ∷ rest else c ∷ x ∷ xs

unfoldable pub sort_unstable : List SettlementCapability → List SettlementCapability
unfolding insert_sorted
sort_unstable [] = []
sort_unstable (x ∷ xs) = insert_sorted x (sort_unstable xs)

-- `dedup`: of each run of equal elements the first stays. `dedup_after x` goes on behind `x`.
unfoldable pub dedup_after :
    SettlementCapability → List SettlementCapability → List SettlementCapability
dedup_after x [] = []
dedup_after x (y ∷ ys) =
    let skip = dedup_after x ys in
    let keep = dedup_after y ys in if capability_beq y x then skip else y ∷ keep

unfoldable pub dedup : List SettlementCapability → List SettlementCapability
unfolding dedup_after
dedup [] = []
dedup (x ∷ xs) = x ∷ dedup_after x xs

pub record BackendCapabilities : Type 0 where
  pub list : List SettlementCapability

unfoldable pub new_capabilities : List SettlementCapability → BackendCapabilities
unfolding sort_unstable dedup
new_capabilities capabilities = record { list = dedup (sort_unstable capabilities) }

abbrev pub capabilities_support : BackendCapabilities → SettlementCapability → Bool
capabilities_support capabilities c = contains capabilities.list c
