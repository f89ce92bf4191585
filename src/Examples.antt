-- ===== src/Examples.antt =====
-- Concrete stores, and the theorems applied to them.
pub mod Data
mod Stores
mod Sharing
mod Histories
mod Merging
mod Renaming
mod Children
mod Repository
mod Serving
mod Remote
mod Elements
mod Hashes
mod Conflicts
