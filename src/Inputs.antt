-- ===== src/Inputs.antt =====
-- scripts/fixed_inputs.py: the inventory of an installation package, and the archive that has to hold
-- exactly what it records.
pub mod Chains
pub mod Entries
pub mod Archive
pub mod Tests
