-- ===== src/Market/Custody/History/Books.antt =====
-- The books of a user in a market, after any history (contracts/market/src/deposit.rs, withdraw.rs,
-- settlement.rs).
use vatix_contract.Prelude.{ℕ, ◌+◌, ℤ, inl, inr, List, ◌≡◌, arith}
use vatix_contract.Market.Types.{Address}
use vatix_contract.Market.Custody.Store.{MarketStore, IsMarketStore}
use vatix_contract.Market.Custody.World.{World, Env}
use vatix_contract.Market.Custody.Ledger.{deposited_by, withdrawn_by, charged_by, total_of}
use vatix_contract.Market.Custody.Deposit.Effects.{deposit_collateral-Deposited}
use vatix_contract.Market.Custody.Withdrawal.Effects.{withdraw_unused_collateral-Withdrawn}
use vatix_contract.Market.Custody.Settlement.Effects.{Settled}
use vatix_contract.Market.Custody.Accounts.{IsAccounted, deposit-IsAccounted, withdraw-IsAccounted}
use vatix_contract.Market.Custody.History.{
  Request, deposit, withdraw, settle, exec, run, Keeps, run-Keeps,
}
use vatix_contract.Market.Custody.History.Once.{settle-Settled, same-or-distinct}

module _ {S : Type 0} (store : MarketStore S) (laws : IsMarketStore store) (m : ℕ)
    (u : Address) where
  settle-IsAccounted :
      (user : Address) (k : ℕ) (payout : ℤ) (env : Env) (w w' : World S)
      → Settled store laws user k payout env w w'
      → IsAccounted store laws m u w
      → IsAccounted store laws m u w'
  settle-IsAccounted user k payout env w w' d a =
      let sums : total_of (withdrawn_by m u) w'.log + total_of (charged_by m u) w'.log + a.balance
          ≡ total_of (deposited_by m u) w'.log =
        ground (
          arith,
          d.events (withdrawn_by m u),
          d.events (charged_by m u),
          d.events (deposited_by m u),
          a.books,
        ) in
      elim (same-or-distinct store laws m u user k) [
        | inl (same_market, same_user) ↦ record {
          balance = a.balance;
          held = ground (arith, d.saved, d.held, a.held);
          books = sums;
          backed = ground (arith, d.saved, d.held, a.backed);
          lock_sign = ground (arith, d.saved, d.held, a.lock_sign);
        }
        | inr other ↦ record {
          balance = a.balance;
          held = ground (arith, d.others m u other, a.held);
          books = sums;
          backed = ground (arith, d.others m u other, a.backed);
          lock_sign = ground (arith, d.others m u other, a.lock_sign);
        }
      ]

  exec-IsAccounted : Keeps store (IsAccounted store laws m u)
  unfolding exec
  exec-IsAccounted (deposit user k n) env w w' h a =
      deposit-IsAccounted store laws m u user k n env w w'
        (deposit_collateral-Deposited store laws user k n env w w' h) a
  exec-IsAccounted (withdraw user k n) env w w' h a =
      withdraw-IsAccounted store laws m u user k n env w w'
        (withdraw_unused_collateral-Withdrawn store laws user k n env w w' h) a
  exec-IsAccounted (settle user k) env w w' h a =
      let (n, d) = settle-Settled store laws user k env w w' h in
      settle-IsAccounted user k n env w w' d a

  -- Deposits, withdrawals and settlements, of any users in any markets, keep a user's books in a
  -- market: the position's deposits are what the user put in less what was withdrawn and charged as
  -- fees, and they cover the position's lock, which is not negative.
  pub run-IsAccounted :
      (cs : List (Env × Request)) (w : World S)
      → IsAccounted store laws m u w
      → IsAccounted store laws m u (run store cs w)
  run-IsAccounted cs w a = run-Keeps store (IsAccounted store laws m u) exec-IsAccounted cs w a
