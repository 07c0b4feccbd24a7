-- ===== src/Market/Custody/History.antt =====
-- Histories of deposits, withdrawals and settlements, by any users in any markets, each rolled back by
-- the host unless it returns (contracts/market/src/deposit.rs, withdraw.rs, settlement.rs).
pub mod Once
pub mod Books
use vatix_contract.Prelude.{ℕ, ℤ, List, [], ◌∷◌, ⊤, Outcome, ok, err, trap, ◌≡◌, refl, pure, ◌>>◌}
use vatix_contract.Market.Types.{Address}
use vatix_contract.Market.Custody.Store.{Failure, MarketStore}
use vatix_contract.Market.Custody.World.{World, Env, M}
use vatix_contract.Market.Custody.Deposit
use vatix_contract.Market.Custody.Withdrawal
use vatix_contract.Market.Custody.Settlement

pub data Request : Type 0 where
  deposit : (user : Address) (market_id : ℕ) (amount : ℤ) → Request
  withdraw : (user : Address) (market_id : ℕ) (amount : ℤ) → Request
  settle : (user : Address) (market_id : ℕ) → Request

module _ {S : Type 0} (store : MarketStore S) where
  -- A call, with its answer dropped.
  unfoldable pub exec : Request → M S ⊤
  exec (deposit u m n) = Deposit.deposit_collateral store u m n
  exec (withdraw u m n) = Withdrawal.withdraw_unused_collateral store u m n
  exec (settle u m) = do Settlement.settle_position store u m; pure tt

  abbrev pub commit : World S → Outcome Failure (⊤ × World S) → World S
  commit w (ok (u, w')) = w'
  commit w (err e) = w
  commit w trap = w

  -- The world after a history, which is read from the left.
  unfoldable pub run : List (Env × Request) → World S → World S
  run [] w = w
  run ((env, q) ∷ cs) w = run cs (commit w (exec q env w))

  -- Every call that returns keeps `P`.
  abbrev pub Keeps : (World S → Type 0) → Type 0
  Keeps P = (q : Request) (env : Env) (w w' : World S) → exec q env w ≡ ok (tt, w') → P w → P w'

  commit-Keeps :
      (P : World S → Type 0)
      → Keeps P
      → (q : Request) (env : Env) (w : World S) → P w
      → P (commit w (exec q env w))
  commit-Keeps P keeps q env w h = go (exec q env w) refl
    where
      go : (r : Outcome Failure (⊤ × World S)) → exec q env w ≡ r → P (commit w r)
      go (ok (tt, w')) e = keeps q env w w' e h
      go (err x) e = h
      go trap e = h

  pub run-Keeps :
      (P : World S → Type 0)
      → Keeps P
      → (cs : List (Env × Request)) (w : World S) → P w
      → P (run cs w)
  unfolding run
  run-Keeps P keeps [] w h = h
  run-Keeps P keeps ((env, q) ∷ cs) w h =
      run-Keeps P keeps cs (commit w (exec q env w)) (commit-Keeps P keeps q env w h)
