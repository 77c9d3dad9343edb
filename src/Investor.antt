-- ===== src/Investor.antt =====
-- programs/exira/src/instructions/investor: what an investor may do.
pub mod Projects
pub mod Pools
