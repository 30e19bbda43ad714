-- ===== src/Minimize.antt =====
-- scripts/minimize_mismatch.py: find a shortest instruction sequence that still shows a recorded
-- difference between the two engines.
pub mod Decimal
pub mod Artifact
pub mod Trial
pub mod Search
pub mod Input
pub mod Oracle
pub mod Run
mod Tests
