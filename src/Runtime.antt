-- ===== src/Runtime.antt =====
-- Threads and their queues: include/aegisflow/runtime and src/runtime.
pub mod Ring
pub mod WorkerPool
mod Tests
