-- ===== src/Market.antt =====
-- The market contract (contracts/market/src).
pub mod Types
pub mod Validation
pub mod Positions
pub mod Custody
mod Tests
