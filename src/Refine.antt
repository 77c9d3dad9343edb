-- ===== src/Refine.antt =====
-- Each instruction of programs/exira/src/instructions as moves of the abstract view in Shares.
pub mod Constraints
pub mod Follow
pub mod Admin
pub mod Pools
pub mod Investor
pub mod Mrv
pub mod Program
