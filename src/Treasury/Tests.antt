-- ===== src/Treasury/Tests.antt =====
-- Runs of the treasury (contracts/treasury/src/lib.rs), with accessors that keep the missing keys in a
-- record.
pub mod Stage
pub mod Calls
pub mod Runs
