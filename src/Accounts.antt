-- ===== src/Accounts.antt =====
-- programs/exira/src/state/*.rs: the accounts that the program owns, and how they may change. A key
-- (Pubkey) is a number, the default key is 0. The text fields and hashes are byte lists.
mod Kinds
pub mod Evolve
pub use Kinds.*
