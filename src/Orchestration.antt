-- ===== src/Orchestration.antt =====
-- apps/backend/crates/orchestration: the outbox and the command inbox.
pub mod Json
pub mod Model
pub mod Payload
pub mod Store
pub mod Policy
pub mod Runtime
mod Scenario
mod Tests
