-- ===== src/Benchmark.antt =====
-- The load generator's side of the protocol: include/aegisflow/benchmark and src/benchmark.
pub mod FrameCodec
