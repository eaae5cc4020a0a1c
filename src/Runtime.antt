-- ===== src/Runtime.antt =====
-- internal/infra/runtime: the types of the container runtime (runtime.go, events.go, labels.go) and
-- its pure helpers. The engines behind the interface are Docker and Podman, which the plane calls.
pub mod Types
pub mod Engine
