-- ===== src/Resolution.antt =====
-- The resolution contract (contracts/resolution/src).
pub mod Types
pub mod World
pub mod Storage
pub mod Events
pub mod Guards
pub mod Money
pub mod Bonds
pub mod Candidates
pub mod Terminal
pub mod Admin
pub mod Lifecycle
pub mod History
pub mod Solvency
pub mod Calls
pub mod Timelock
mod Tests
