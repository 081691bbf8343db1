-- ===== src/Spider.antt =====
-- The structure spider (crates/nemclass-scan/src/spider.rs): a search for a value in the structures
-- that can be reached from an address.
pub mod Path
pub mod Window
pub mod Search
pub mod Refine
pub mod Cover
pub mod Pages
pub mod Invariant
pub mod Slots
pub mod Levels
pub mod Sound
pub mod Narrow
