-- ===== src/Safety.antt =====
-- Properties of single instructions and of chains of them.
pub mod Solvency
pub mod Overdraft
pub mod Lifecycle
pub mod Books
pub mod Links
pub mod Addresses
pub mod Authority
pub mod Claims
pub mod Payout
pub mod Purchases
pub mod Fees
pub mod Texts
pub mod Effects
pub mod Accrual
pub mod Sales
pub mod Refunds
pub mod Vaults
pub mod Errors
pub mod Arithmetic
pub mod Withdrawals
