-- ===== src/Diff.antt =====
-- Structural comparison (crates/clayers-repo/src/diff.rs).
pub mod Trees
pub mod Nodes
