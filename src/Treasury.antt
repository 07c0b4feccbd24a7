-- ===== src/Treasury.antt =====
-- The treasury contract (contracts/treasury/src).
pub mod Types
pub mod World
pub mod Storage
pub mod Events
pub mod Guards
pub mod Fees
pub mod Distribution
pub mod Registry
pub mod Admin
pub mod Laws
pub mod History
pub mod Tests
