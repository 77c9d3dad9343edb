-- ===== src/Shares.antt =====
-- The abstract view of the two funding layers: projects and pools are funds, whose shares the
-- positions hold. The moves say what one instruction may do to it, whatever the accounts named.
pub mod Fund
pub mod Home
pub mod Move
pub mod Excess
pub mod Invariant
pub mod Rewrite
pub mod Kept
pub mod Kinds
pub mod Persist
pub mod Origin
pub mod Homes
pub mod Rules
pub mod Preserve
