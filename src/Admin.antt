-- ===== src/Admin.antt =====
-- programs/exira/src/instructions/admin: the instructions of the platform's admin.
pub mod Platforms
pub mod Projects
pub mod Funds
pub mod Pools
