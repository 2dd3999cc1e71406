-- ===== src/Memory.antt =====
-- crates/rat-memory
pub mod Nightly
pub mod Retrieve
