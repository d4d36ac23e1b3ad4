-- ===== src/Risk.antt =====
-- The risk rules: include/aegisflow/risk and src/risk.
pub mod Types
pub mod Policy
pub mod Mutation
pub mod Blacklist
pub mod Generator
pub mod Tests
