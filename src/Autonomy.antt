-- ===== src/Autonomy.antt =====
-- pkg/autonomy: the declared human-delegation level (Level) and the operations that need one (Ops).
pub mod Level
pub mod Ops
pub mod Parse
mod Samples
