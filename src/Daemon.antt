-- ===== src/Daemon.antt =====
-- crates/rat-daemon
pub mod Decide
pub mod Sessionizer
pub mod Ingest
pub mod Mode
pub mod PinKeys
pub mod Server
pub mod Sensors
