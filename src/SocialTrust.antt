-- ===== src/SocialTrust.antt =====
-- apps/backend/crates/social-trust-domain: the decisions on Social Trust facts.
pub mod References
pub mod Sources
pub mod Rejected
pub mod Facts
pub mod Boundary
pub mod Intake
pub mod Proposal
pub mod Mutation
pub mod Consumption
pub mod Scope
pub mod Readback
mod Tests
