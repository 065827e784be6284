-- ===== src/Publish.antt =====
-- The versions of what the program publishes, internal/publish.
pub mod Version
pub mod Prune
pub mod Samples
pub mod PruneSamples
