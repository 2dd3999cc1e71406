-- ===== src/Dotfile.antt =====
-- crates/rat-dotfile/src/lib.rs: edits of the user's configuration files.
pub mod Jsonc
pub mod Files
pub mod Validate
pub mod Apply
