-- ===== src/Brain.antt =====
-- crates/rat-brain
pub mod Governor
pub mod Detect
pub mod Critic
