-- ===== src/Voice.antt =====
-- crates/rat-voice
pub mod Approval
pub mod PreWake
pub mod Intent
