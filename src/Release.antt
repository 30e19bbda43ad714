-- ===== src/Release.antt =====
-- scripts/release_common.py: the tests that the release scripts share.
pub mod Names
pub mod Manifest
pub mod Stages
pub mod Inventory
pub mod Extract
pub mod Write
mod Tests
