-- ===== src/Agent.antt =====
-- internal/agent: the connections of workers, the rows they stand in and the commands sent to them.
pub mod Messages
pub mod Conn
pub mod Registry
pub mod Nodes
pub mod Session
pub mod Identity
pub mod Soundness
pub mod Registered
pub mod Revocation
pub mod Barred
pub mod Reconnect
pub mod Backlog
pub mod Life
pub mod Commands
pub mod Client
pub mod Replies
pub mod Subjects
pub mod Tests
