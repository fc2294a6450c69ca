-- ===== src/Webhook.antt =====
-- internal/webhook: status snapshots for callback URLs, and their delivery.
pub mod Enqueue
pub mod Worker
pub mod Retries
pub mod Lifecycle
pub mod Batches
pub mod Runs
pub mod Snapshots
mod Tests
