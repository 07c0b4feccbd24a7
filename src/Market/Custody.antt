-- ===== src/Market/Custody.antt =====
-- The collateral of a market's users: the deposits, withdrawals and settlements of
-- contracts/market/src/deposit.rs, withdraw.rs, settlement.rs and reconciliation.rs.
pub mod Store
pub mod World
pub mod Deposit
pub mod Access
pub mod Withdrawal
pub mod Ledger
pub mod Parity
pub mod Settlement
pub mod Accounts
pub mod History
mod Tests
mod PageTests
