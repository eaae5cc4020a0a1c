-- ===== src/Access.antt =====
-- internal/access and internal/container/access.go: who may see and touch a container.
pub mod Control
pub mod Visible
pub mod Tests
