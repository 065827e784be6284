-- ===== src/Coordination.antt =====
-- File reservations and named locks: internal/coordination.
pub mod Ranges
pub mod Glob
pub mod Search
pub mod Locks
pub mod Updates
pub mod Exclusion
pub mod Life
pub mod Holders
pub mod Checks
mod Samples
