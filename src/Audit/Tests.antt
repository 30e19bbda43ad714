-- ===== src/Audit/Tests.antt =====
-- The audit of a small release, in which each validator accepts its record.
mod Source
mod Proofs
mod CleanRoom
mod Records
mod Toy
mod Accepted
mod Whole
mod Examples
