-- ===== src/Treasury/History.antt =====
-- Histories of the treasury: any calls of its entry points, by anyone, one after another, each rolled
-- back by the host unless it returns (contracts/treasury/src/lib.rs).
pub mod Ledger
pub mod Weights
pub mod Custody
pub mod Payouts
pub mod Runs
pub mod Books
pub mod Authority
pub mod Directory
pub mod Roles
use vatix_contract.Prelude.{ℕ, ℤ, List, [], ◌∷◌, ⊤, Outcome, ok, err, trap, pure, ◌>>◌, ◌>>=◌}
use vatix_contract.Treasury.Types.{Address, Share, TreasuryError}
use vatix_contract.Treasury.World.{Accessors, World, Env, M}
use vatix_contract.Treasury.Fees
use vatix_contract.Treasury.Distribution
use vatix_contract.Treasury.Registry
use vatix_contract.Treasury.Admin

-- The entry points that change state, with their arguments.
pub data Request (Mode : Type 0) : Type 0 where
  initialize : (admin market_contract : Address) → Request Mode
  collect_fee : (caller token : Address) (market_id : ℕ) (fee_amount : ℤ) → Request Mode
  withdraw_fees : (caller token to : Address) (amount : ℤ) → Request Mode
  propose_admin : (caller new_admin : Address) → Request Mode
  execute_admin : Request Mode
  cancel_admin : (caller : Address) → Request Mode
  transfer_admin : (caller new_admin : Address) → Request Mode
  add_market : (caller market_contract : Address) → Request Mode
  remove_market : (caller market_contract : Address) → Request Mode
  propose_market_contract : (caller new_market_contract : Address) → Request Mode
  execute_market_contract : Request Mode
  cancel_market_contract : (caller : Address) → Request Mode
  set_market_contract : (caller market_contract : Address) → Request Mode
  pause : (caller : Address) → Request Mode
  unpause : (caller : Address) → Request Mode
  set_emergency_mode : (caller : Address) (new_mode : Mode) → Request Mode
  propose_stakeholders : (caller : Address) (stakeholders : List Share) → Request Mode
  execute_stakeholders : Request Mode
  cancel_stakeholders : (caller : Address) → Request Mode
  distribute_fees : (caller token : Address) → Request Mode

module _ {S Mode : Type 0} (access : Accessors S Mode) where
  -- A call, with its answer dropped.
  unfoldable pub exec : Request Mode → M S Mode ⊤
  exec (initialize a m) = Admin.initialize a m
  exec (collect_fee c t k n) = Fees.collect_fee access c t k n
  exec (withdraw_fees c t to n) = Fees.withdraw_fees access c t to n
  exec (propose_admin c a) = Admin.propose_admin c a
  exec execute_admin = do Admin.execute_admin; pure tt
  exec (cancel_admin c) = Admin.cancel_admin c
  exec (transfer_admin c a) = Admin.transfer_admin c a
  exec (add_market c m) = Registry.add_market c m
  exec (remove_market c m) = Registry.remove_market c m
  exec (propose_market_contract c m) = Registry.propose_market_contract c m
  exec execute_market_contract = do Registry.execute_market_contract; pure tt
  exec (cancel_market_contract c) = Registry.cancel_market_contract c
  exec (set_market_contract c m) = Registry.set_market_contract c m
  exec (pause c) = Admin.pause access c
  exec (unpause c) = Admin.unpause access c
  exec (set_emergency_mode c m) = Admin.set_emergency_mode access c m
  exec (propose_stakeholders c xs) = Distribution.propose_stakeholders access c xs
  exec execute_stakeholders = Distribution.execute_stakeholders access
  exec (cancel_stakeholders c) = Distribution.cancel_stakeholders access c
  exec (distribute_fees c t) = Distribution.distribute_fees access c t

  -- The world after a call: rolled back unless the call returns.
  abbrev pub commit : World S Mode → Outcome TreasuryError (⊤ × World S Mode) → World S Mode
  commit w (ok (u, w')) = w'
  commit w (err e) = w
  commit w trap = w

  unfoldable pub step : Env Mode × Request Mode → World S Mode → World S Mode
  step (env, q) w = commit w (exec q env w)

  -- The world after a history, which is read from the left.
  unfoldable pub run : List (Env Mode × Request Mode) → World S Mode → World S Mode
  run [] w = w
  run (c ∷ cs) w = run cs (step c w)
