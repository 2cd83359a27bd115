-- ===== src/Agent.antt =====
-- internal/agent: the service that follows its configuration, and the reports that it queues.
pub mod Queue
pub mod Service
pub mod Changes
pub mod Sync
pub mod Backoff
pub mod Rounds
pub mod Restart
pub mod Upload
mod Tests
pub mod Delivery
