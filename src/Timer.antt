-- ===== src/Timer.antt =====
-- Timers: include/aegisflow/timer and src/timer.
pub mod Types
pub mod State
pub mod Core
mod Tests
