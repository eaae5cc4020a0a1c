-- ===== src/Ca.antt =====
-- internal/platform/ca: the one-time tokens with which a worker registers.
pub mod Registration
pub mod Once
pub mod Tests
