-- ===== src/App.antt =====
-- The application layer: include/aegisflow/app and src/app.
pub mod CandidateQueue
pub mod LoginRequestValidator
pub mod RiskService
pub mod Tests
pub mod Maintenance
