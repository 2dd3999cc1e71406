-- ===== src/Examples.antt =====
-- Runs of the modelled code on small inputs.
pub mod Tables
pub mod Terminal
pub mod Critic
pub mod Ingest
pub mod Dotfile
pub mod Fixtures
pub mod Store
pub mod Workbench
pub mod Daemon
pub mod Voice
pub mod Brain
pub mod Inject
pub mod Memory
pub mod Actor
pub mod Server
pub mod Search
pub mod Runner
