-- ===== src/Resolution/Timelock.antt =====
-- The timelocked changes of the factory, the market contract and the treasury
-- (contracts/resolution/src/lib.rs): the three slots for a pending change, as one family.
pub mod Slots
pub mod Delay
use vatix_contract.Prelude.{◌≡◌, Option}
use vatix_contract.Resolution.Types.{Address, PendingAddressChange}
use vatix_contract.Resolution.World.{Storage, World, M}
use vatix_contract.Resolution.Admin.{execute_factory, execute_market_contract, execute_treasury}
use vatix_contract.Resolution.History.{
  Request, propose_factory, propose_market_contract, propose_treasury,
}

pub data Slot : Type 0 where
  factory market_contract treasury : Slot

abbrev pub pending : Slot → Storage → Option PendingAddressChange
pending factory s = s.pending_factory
pending market_contract s = s.pending_market_contract
pending treasury s = s.pending_treasury

-- The request that fills a slot, and the call that applies it.
abbrev pub proposes : Slot → Address → Address → Request
proposes factory admin a = propose_factory admin a
proposes market_contract admin a = propose_market_contract admin a
proposes treasury admin a = propose_treasury admin a

abbrev pub executes : Slot → M Address
executes factory = execute_factory
executes market_contract = execute_market_contract
executes treasury = execute_treasury

-- No slot is touched.
pub record SamePending (w w' : World) : Type 0 where
  pub same_factory : w'.storage.pending_factory ≡ w.storage.pending_factory
  pub same_market : w'.storage.pending_market_contract ≡ w.storage.pending_market_contract
  pub same_treasury : w'.storage.pending_treasury ≡ w.storage.pending_treasury
