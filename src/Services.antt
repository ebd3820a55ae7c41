-- ===== src/Services.antt =====
-- The smaller services: calls, presence, notifications, and the event bus's retries.
pub mod Calls
pub mod Notifications
pub mod Backoff
pub mod Presence
pub mod Users
pub mod Media
pub mod EventBus
