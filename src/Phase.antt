-- ===== src/Phase.antt =====
-- The lifecycle of a run: internal/phase.
pub mod Chain
pub mod Parse
pub mod Machine
pub mod Advance
pub mod Checks
pub mod Gate
pub mod Placed
pub mod Lifecycle
pub mod Skips
mod Samples
