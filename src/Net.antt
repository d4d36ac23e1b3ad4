-- ===== src/Net.antt =====
-- The network layer, include/aegisflow/net and src/net.
pub mod Protocol
pub mod Codec
pub mod Token
pub mod Session
pub mod Limits
pub mod Completion
pub mod Mailbox
pub mod Router
pub mod Tests
