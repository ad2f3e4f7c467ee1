-- ===== src/Store.antt =====
-- The store (store/).
pub mod Keys
pub mod Cache
pub mod Ops
pub mod Block
pub mod Flush
pub mod Entity
pub mod Glob
pub mod PrefixRange
pub mod Scan
pub mod Reading
pub mod Commit
pub mod Revert
pub mod Chain
