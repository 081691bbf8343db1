-- ===== src/Scan.antt =====
-- The memory scanner (crates/nemclass-scan/src): what a value is compared with, the results of a
-- pass, the scan session, byte patterns and signatures, and frozen values.
pub mod Compare
pub mod Pattern
pub mod Results
pub mod Freeze
pub mod Frozen
pub mod Signature
pub mod ValueType
pub mod Needle
pub mod Target
pub mod SectionFilter
pub mod Session
pub mod FirstScan
pub mod NextScan
pub mod Walk
pub mod Lattice
pub mod Rounds
pub mod Coverage
pub mod Locality
pub mod Passes
pub mod Generations
pub mod History
pub mod Columns
pub mod Finds
pub mod Filtered
pub mod Merged
pub mod Window
pub mod Offered
pub mod Spelling
pub mod Unique
