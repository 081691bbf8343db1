-- ===== src/Pointer.antt =====
-- The pointer scan (crates/nemclass-scan/src/pointerscan.rs): paths of pointers to a goal.
pub mod Path
pub mod Search
pub mod Chains
pub mod Bounded
pub mod Harvest
pub mod Harvested
pub mod Formula
pub mod Spelled
pub mod Reparsed
pub mod Reread
