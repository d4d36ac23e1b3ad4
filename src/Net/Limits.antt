-- ===== src/Net/Limits.antt =====
-- limits.hpp (include/aegisflow/net): the limits that a server is configured with.
use aegis_flow.Prelude.{
  ℕ, ◌+◌, ◌-◌, ◌*◌, ◌/◌, ◌%◌, ◌^◌, ◌<◌, ◌≡◌, Bool, true, false, ◌||◌, arith, ltb, ◌==◌,
  if◌then◌else◌, add_size, u64_max,
}
use aegis_flow.Net.Protocol.{frame_header_size, max_payload_size}
use aegis_flow.Net.Session.State.{SessionConfig, valid_config}
use aegis_flow.Net.Session.Invariant.{IsRoomy}

pub record LimitsConfig : Type 0 where
  pub max_connections : ℕ
  pub max_connections_per_loop : ℕ
  pub connection_queue_capacity : ℕ
  pub business_queue_capacity : ℕ
  pub completion_queue_capacity : ℕ
  pub completion_queue_byte_capacity : ℕ
  pub max_frame_payload_bytes : ℕ
  pub input_soft_watermark_bytes : ℕ
  pub max_input_buffer_bytes : ℕ
  pub output_soft_watermark_bytes : ℕ
  pub max_output_buffer_bytes : ℕ

-- The first test of `validLimits`: nothing is 0.
unfoldable pub some_zero : LimitsConfig → ℕ → ℕ → Bool
some_zero limits loop_count worker_threads =
    (loop_count == 0)
    || (worker_threads == 0)
    || (limits.max_connections == 0)
    || (limits.max_connections_per_loop == 0)
    || (limits.connection_queue_capacity == 0)
    || (limits.business_queue_capacity == 0)
    || (limits.completion_queue_capacity == 0)
    || (limits.completion_queue_byte_capacity == 0)
    || (limits.max_frame_payload_bytes == 0)
    || (limits.input_soft_watermark_bytes == 0)
    || (limits.max_input_buffer_bytes == 0)
    || (limits.output_soft_watermark_bytes == 0)
    || (limits.max_output_buffer_bytes == 0)

-- The second test: the buffers of a session.
unfoldable pub bad_buffers : LimitsConfig → Bool
bad_buffers limits =
    ltb max_payload_size limits.max_frame_payload_bytes
    || ltb (u64_max - frame_header_size) limits.max_frame_payload_bytes
    || ltb limits.max_input_buffer_bytes (add_size frame_header_size limits.max_frame_payload_bytes)
    || ltb (frame_header_size + max_payload_size) limits.max_input_buffer_bytes
    || ltb limits.max_input_buffer_bytes limits.input_soft_watermark_bytes
    || ltb limits.max_output_buffer_bytes (frame_header_size + 1)
    || ltb (frame_header_size + max_payload_size) limits.max_output_buffer_bytes
    || ltb limits.max_output_buffer_bytes limits.output_soft_watermark_bytes

-- The third test: the queues. The product and the sum are guarded against overflow.
unfoldable pub bad_queues : LimitsConfig → ℕ → ℕ → Bool
bad_queues limits loop_count worker_threads =
    ltb (u64_max / loop_count) limits.max_connections_per_loop
    || ltb ((loop_count * limits.max_connections_per_loop) % 2 ^ 64) limits.max_connections
    || ltb limits.max_connections_per_loop limits.connection_queue_capacity
    || ltb (u64_max - limits.business_queue_capacity) worker_threads
    || ltb limits.completion_queue_capacity (add_size limits.business_queue_capacity worker_threads)
    || ltb limits.completion_queue_byte_capacity limits.max_output_buffer_bytes

unfoldable pub valid_limits : LimitsConfig → ℕ → ℕ → Bool
unfolding some_zero bad_buffers bad_queues
valid_limits limits loop_count worker_threads =
    if some_zero limits loop_count worker_threads
    then false
    else if bad_buffers limits
    then false
    else if bad_queues limits loop_count worker_threads
    then false
    else true

-- The configuration that an event loop gives its sessions.
abbrev pub session_config : LimitsConfig → SessionConfig
session_config limits = record {
  max_frame_payload_bytes = limits.max_frame_payload_bytes;
  input_soft_watermark_bytes = limits.input_soft_watermark_bytes;
  max_input_buffer_bytes = limits.max_input_buffer_bytes;
  output_soft_watermark_bytes = limits.output_soft_watermark_bytes;
  max_output_buffer_bytes = limits.max_output_buffer_bytes;
}

zero-buffers :
    (l : LimitsConfig) (loops workers : ℕ)
    → some_zero l loops workers ≡ false
    → (0 < l.max_frame_payload_bytes)
      × (0 < l.input_soft_watermark_bytes)
      × (0 < l.output_soft_watermark_bytes)
unfolding some_zero
zero-buffers l loops workers h = (ground arith, ground arith, ground arith)

passed :
    (l : LimitsConfig) (loops workers : ℕ)
    → valid_limits l loops workers ≡ true
    → (some_zero l loops workers ≡ false)
      × (bad_buffers l ≡ false)
      × (bad_queues l loops workers ≡ false)
unfolding valid_limits
passed l loops workers h = (ground arith, ground arith, ground arith)

buffers-IsRoomy : (l : LimitsConfig) → bad_buffers l ≡ false → IsRoomy (session_config l)
unfolding bad_buffers
buffers-IsRoomy l h = record {
  payload = ground arith;
  input = ground arith;
  input_size = ground arith;
  output_size = ground arith;
}

-- The sessions of a server whose limits are valid have a configuration that their constructor
-- accepts and that has room for the largest frame with its header.
pub valid_limits-IsRoomy :
    (l : LimitsConfig) (loops workers : ℕ)
    → valid_limits l loops workers ≡ true
    → (valid_config (session_config l) ≡ true) × IsRoomy (session_config l)
unfolding valid_config bad_buffers
valid_limits-IsRoomy l loops workers h =
    let (zeros, buffers, queues) = passed l loops workers h in
    let (payload, input, output) = zero-buffers l loops workers zeros in
    (ground arith, buffers-IsRoomy l buffers)
