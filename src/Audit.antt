-- ===== src/Audit.antt =====
-- scripts/audit_release.py: the validators of the evidence slots, and their aggregation.
pub mod Checks
pub mod Site
pub mod Provenance
pub mod Policy
pub mod Report
pub mod Ci
pub mod Signatures
pub mod ThirdParty
pub mod Lean
pub mod Rocq
pub mod Package
pub mod Publication
pub mod Aggregate
pub mod Validators
mod Tests
