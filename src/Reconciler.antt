-- ===== src/Reconciler.antt =====
-- internal/reconciler: the control loop that drives the containers of each service towards what its
-- manifest asks for.
pub mod Diff
pub mod Health
pub mod BlueGreen
pub mod Rolling
pub mod Actions
pub mod Digest
pub mod Termination
pub mod Traces
pub mod Switch
pub mod Rollback
pub mod Slots
pub mod Replace
pub mod Decision
pub mod Digests
pub mod Labels
pub mod Tests
