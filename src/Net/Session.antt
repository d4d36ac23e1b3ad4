-- ===== src/Net/Session.antt =====
-- The session of a connection: session.hpp and session.cpp (include/aegisflow/net, src/net).
pub mod State
pub mod Input
pub mod Output
pub mod Reads
pub mod Invariant
pub mod Delivery
pub mod Receiving
pub mod Progress
pub mod Resuming
pub mod Writing
pub mod Closing
pub mod Handle
pub mod Lifecycle
pub mod Creation
