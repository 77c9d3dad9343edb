-- ===== src/Mrv.antt =====
-- programs/exira/src/instructions/mrv: the registry of measurements, reports and verifications.
pub mod Text
pub mod Registry
pub mod Reports
