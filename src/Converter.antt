-- ===== src/Converter.antt =====
-- internal/converter: from what a user submits to manifests of services.
pub mod Input
pub mod Compose
pub mod Sources
pub mod Convert
mod Accepted
mod Single
pub mod Nonempty
mod Built
mod Tests
