-- ===== src/Timer/Types.antt =====
-- The values of timer_core.hpp (include/aegisflow/timer).
use aegis_flow.Prelude.{ℕ, ℤ}

pub record TimerId : Type 0 where
  pub value : ℕ
  pub generation : ℕ

-- The default constructed id.
abbrev pub no_timer : TimerId
no_timer = record { value = 0; generation = 0 }

pub data TimerEventKind : Type 0 where
  idle_timeout read_timeout write_timeout business_timeout cleanup_tick : TimerEventKind
  blacklist_maintenance_tick : TimerEventKind

pub record TimerEvent : Type 0 where
  pub kind : TimerEventKind
  pub target_id : ℕ
  pub target_loop_id : ℕ
  pub target_fd : ℤ
  pub target_generation : ℕ
  pub target_sequence : ℕ
