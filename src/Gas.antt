-- ===== src/Gas.antt =====
-- internal/gas: top-ups of signers from an app's treasury.
pub mod Worker
pub mod Refills
pub mod Runs
mod Tests
