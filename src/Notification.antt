-- ===== src/Notification.antt =====
-- internal/notification: the table of alerts, one row for each fingerprint.
pub mod Table
pub mod Rows
pub mod Unread
pub mod Ledger
pub mod Tests
