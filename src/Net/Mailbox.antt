-- ===== src/Net/Mailbox.antt =====
-- loop_mailbox.cpp (src/net): the bounded mailboxes of an event loop. Each call holds the lock.
pub mod Wake
pub mod Completions
pub mod Connections
pub mod Timeouts
mod Tests
