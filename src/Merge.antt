-- ===== src/Merge.antt =====
-- Three-way merging (crates/clayers-repo/src/merge.rs).
pub mod ThreeWay
pub mod Attributes
pub mod Policy
pub mod Trees
pub mod Children
pub mod Elements
