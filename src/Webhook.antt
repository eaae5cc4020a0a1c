-- ===== src/Webhook.antt =====
-- internal/webhook: deliveries of push events, from the request to the queued job.
pub mod Signature
pub mod Payload
pub mod Receive
pub mod Authentic
pub mod Refs
pub mod Outcome
pub mod Tests
