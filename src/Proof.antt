-- ===== src/Proof.antt =====
-- apps/backend/src/services/proof.rs: proofs of presence at a venue. The state is guarded by one
-- lock that an operation holds from start to end, so an operation is a function of the state.
pub mod State
pub mod Messages
pub mod Texts
pub mod Digest
pub mod Sort
pub mod Keys
pub mod Challenge
pub mod Prune
pub mod Start
pub mod Verify
pub mod Attempt
pub mod Submit
pub mod Invariant
pub mod Scenario
mod Tests
