-- ===== src/Runtime.antt =====
-- scripts/runtime_evidence.py: what an artifact of the differential run has to show of its two traces,
-- and the mutations that the comparison has to find.
pub mod Trace
pub mod Case
pub mod Mutations
pub mod TestLog
pub mod Validate
pub mod Check
pub mod Tests
