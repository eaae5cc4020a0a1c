-- ===== src/Jobs.antt =====
-- internal/jobs: the background jobs that keep services alive, and the watcher that starts them.
pub mod Events
pub mod Names
pub mod Stops
pub mod Stages
pub mod Deployment
pub mod Redeployment
pub mod Changes
pub mod Settled
pub mod Deployed
pub mod Updates
pub mod Recovery
pub mod Removal
pub mod Healing
pub mod Overreach
pub mod Slots
pub mod BlueGreen
pub mod Autoscale
pub mod Scaling
pub mod Tests
mod DeployTests
