-- ===== src/Process.antt =====
-- What the process layer (crates/nemclass-core/src/internal) knows of a target's memory: its mapped
-- sections, and the index that says what an address points into.
pub mod Section
pub mod RegionIndex
pub mod Lookup
pub mod Strings
pub mod Runs
pub mod Pointers
pub mod Vtables
