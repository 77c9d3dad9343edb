-- ===== src/Shares/Preserve.antt =====
-- The moves against the invariant.

pub mod Funds
pub mod Positions
pub mod Trades
pub mod Purchases
pub mod Cover
pub mod Links
