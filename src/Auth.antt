-- ===== src/Auth.antt =====
-- internal/auth: accounts, passwords and the rotation of refresh tokens.
pub mod Tokens
pub mod Accounts
pub mod Rotation
pub mod Sessions
pub mod Login
pub mod Founding
pub mod Race
pub mod Tests
