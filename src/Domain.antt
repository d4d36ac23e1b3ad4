-- ===== src/Domain.antt =====
-- The values that the parts share: login.hpp and ip_address.cpp (include/aegisflow/domain, src/domain).
pub mod Login
pub mod IpAddress
pub mod Tests
