-- ===== src/Version.antt =====
-- internal/system: the check for newer versions of the program's own parts.
pub mod Check
pub mod Order
pub mod Tests
