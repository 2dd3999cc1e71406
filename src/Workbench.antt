-- ===== src/Workbench.antt =====
-- crates/rat-workbench
pub mod Git
pub mod Merge
pub mod Poll
pub mod Command
pub mod Host
pub mod Worktree
pub mod Start
pub mod MergeBack
