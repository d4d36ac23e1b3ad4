-- ===== src/Feature.antt =====
-- The features of an attempt: include/aegisflow/feature and src/feature.
pub mod Maps
pub mod SlidingCounter
pub mod SlidingDistinct
pub mod Store
pub mod Tests
