-- ===== src/Resolution/Calls.antt =====
-- What single calls of the resolution contract answer: the pause flag, the call-back into the market,
-- and when the end of a dispute goes through (contracts/resolution/src/lib.rs).
pub mod Pausing
pub mod Callback
pub mod Completion
pub mod Stranding
pub mod Arbitration
