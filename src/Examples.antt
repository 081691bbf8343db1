-- ===== src/Examples.antt =====
-- Tests of the definitions on concrete inputs, and each theorem with hypotheses at one of them.
mod Formulas
mod Scans
mod Chains
mod Regions
mod Signatures
mod Spiders
mod Documents
mod Dissections
mod Harvests
