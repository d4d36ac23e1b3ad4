-- ===== src/Net/Mailbox/Wake.antt =====
-- The event descriptor of the mailboxes of loop_mailbox.cpp (src/net).
use aegis_flow.Prelude.{Bool, true, false}

-- What `::write` to the event descriptor meets: success, EAGAIN, another error, or EINTR and then
-- what the next try meets.
pub data WakeWrite : Type 0 where
  written would_block write_failed : WakeWrite
  write_interrupted : WakeWrite → WakeWrite

abbrev pub signal_wake_fd : WakeWrite → Bool
signal_wake_fd written = true
signal_wake_fd would_block = true
signal_wake_fd write_failed = false
signal_wake_fd (write_interrupted next) = signal_wake_fd next

-- What `::read` from it meets: a value or EINTR, and then what the next try meets, EAGAIN, or
-- another error.
pub data WakeRead : Type 0 where
  value_read read_interrupted : WakeRead → WakeRead
  nothing_to_read read_failed : WakeRead

abbrev pub drain_wake_fd : WakeRead → Bool
drain_wake_fd (value_read next) = drain_wake_fd next
drain_wake_fd (read_interrupted next) = drain_wake_fd next
drain_wake_fd nothing_to_read = true
drain_wake_fd read_failed = false
