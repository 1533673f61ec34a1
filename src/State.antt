-- ===== src/State.antt =====
-- internal/state: the Postgres table of parts, and the transactions on it.
pub mod Part
pub mod Row
pub mod Table
pub mod Rewrite
pub mod Import
pub mod Retry
pub mod Batch
pub mod Compact
pub mod Progress
pub mod Beat
pub mod Claim
pub mod Maintenance
pub mod Upkeep
pub mod Command
pub mod Lifecycle
mod Tests
