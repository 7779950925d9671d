-- ===== src/Tests.antt =====
-- Concrete inputs on which the theorems are tried.
pub mod Evidence
pub mod Samples
pub mod Grants
pub mod Audit
pub mod Requests
pub mod Chains
pub mod Controls
pub mod Races
