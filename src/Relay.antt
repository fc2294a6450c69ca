-- ===== src/Relay.antt =====
-- internal/relay: requests on their way to the chain and back.
pub mod Get
pub mod Chain
pub mod Enqueuer
pub mod Service
pub mod Courses
pub mod Effects
pub mod Nonces
pub mod Goroutines
pub mod Marks
pub mod Rows
pub mod Appends
pub mod Sends
pub mod Refusals
pub mod Shape
pub mod Returns
pub mod Outcome
pub mod Retry
pub mod Lost
pub mod Reading
pub mod Revert
pub mod Watcher
pub mod Receipts
pub mod Recovery
pub mod Quiet
pub mod Settled
pub mod Lifecycle
pub mod References
pub mod Integrity
pub mod Runs
mod Tests
mod WatcherTests
mod RecoveryTests
