-- ===== src/Store.antt =====
-- crates/rat-store
pub mod Sql
pub mod Approvals
pub mod Runs
pub mod Prune
pub mod Pins
pub mod Order
pub mod Events
pub mod Observations
pub mod Sessions
pub mod Pushbacks
pub mod Blobs
pub mod DotfileEdits
pub mod Terminals
pub mod Memories
pub mod Embeddings
pub mod Actor
