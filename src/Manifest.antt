-- ===== src/Manifest.antt =====
-- Service manifests: internal/manifest (schema.go, resolver.go, adapter.go).
pub mod Schema
pub mod Resolved
pub mod Validate
pub mod Resolve
pub mod Validity
pub mod Adapter
pub mod Ports
pub mod Completeness
pub mod Digits
pub mod Images
pub mod Tests
