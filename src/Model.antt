-- ===== src/Model.antt =====
-- The document model of crates/nemclass-model: nodes, classes and projects, how they are stored, and the
-- layout that the code generators print.
pub mod Node
pub mod Stored
pub mod Registry
pub mod Reload
pub mod Depth
pub mod Project
pub mod Maps
pub mod Order
pub mod Uses
pub mod Sizes
pub mod Measured
pub mod Acyclic
pub mod Fields
pub mod Printed
pub mod Layout
pub mod File
pub mod Saved
pub mod Loaded
pub mod Dissect
pub mod Tiling
