-- ===== src/Settlement.antt =====
-- apps/backend/crates/settlement-domain: currencies, money and the contract of a backend.
pub mod Currency
pub mod Money
mod Tests
pub mod Capabilities
pub mod Backend
