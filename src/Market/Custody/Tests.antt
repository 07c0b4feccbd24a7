-- ===== src/Market/Custody/Tests.antt =====
-- Runs of deposits, withdrawals and settlements over a storage that keeps what is written
-- (contracts/market/src/deposit.rs, withdraw.rs, settlement.rs).
use vatix_contract.Prelude.{
  ℕ, ℤ, pos, ◌+ℤ◌, ◌-ℤ◌, ◌*ℤ◌, ◌/ℤ◌, Bool, true, false, ◌&&◌, ◌==◌, Option, none, some, List, [],
  ◌∷◌, ok, refl, ◌≡◌, ◌≢◌, inl, inr, if◌then◌else◌, arith,
}
use vatix_contract.Market.Types.{Address, normal, Market, Position, active, resolved, ed25519}
use vatix_contract.Market.Validation.{validate_collateral_amount, calculate_fee}
use vatix_contract.Market.Custody.Store.{MarketStore, IsMarketStore}
use vatix_contract.Market.Custody.World.{World, Env}
use vatix_contract.Market.Custody.Deposit
use vatix_contract.Market.Custody.Deposit.Effects.{Deposited, deposit_collateral-Deposited}
use vatix_contract.Market.Custody.Withdrawal
use vatix_contract.Market.Custody.Withdrawal.Effects.{
  Withdrawn, withdraw_unused_collateral-Withdrawn,
}
use vatix_contract.Market.Custody.Settlement
use vatix_contract.Market.Custody.Settlement.Effects.{Settled, settle_position-Settled}
use vatix_contract.Market.Custody.Accounts.{IsAccounted}
use vatix_contract.Market.Custody.History.{Request, deposit, withdraw, settle, exec, commit, run}
use vatix_contract.Market.Custody.History.Once.{settle_position-once}
use vatix_contract.Market.Custody.History.Books.{run-IsAccounted}

abbrev pub at_key {ℓ} : {A : Type ℓ} → (ℕ → Address → A) → ℕ → Address → A → ℕ → Address → A
at_key f m u x k v = if k == m && v == u then x else f k v

pub record Tables : Type 0 where
  pub locked : Bool
  pub markets : ℕ → Option Market
  pub positions : ℕ → Address → Option Position
  pub balances : Address → ℤ
  pub times : ℕ → Address → Option ℕ

abbrev pub tables : MarketStore Tables
tables = record {
  get_emergency_mode = λ s. normal;
  is_deposit_locked = λ s. s.locked;
  set_deposit_locked = λ s b. record s { locked = b };
  get_market = λ s m. ok (s.markets m);
  get_position = λ s m u. ok (s.positions m u);
  set_position = λ s m u p. ok (record s { positions = at_key s.positions m u (some p) });
  get_collateral_balance = λ s u. s.balances u;
  set_collateral_balance = λ s u n. record s { balances = λ v. if v == u then n else s.balances v };
  debit_collateral_balance = λ s u n.
      some (record s { balances = λ v. if v == u then s.balances v -ℤ n else s.balances v });
  add_market_participant = λ s m u. s;
  get_market_participants = λ s m. 7 ∷ 12 ∷ [];
  get_last_deposit_time = λ s m u. s.times m u;
  set_last_deposit_time = λ s m u at. record s { times = at_key s.times m u (some at) };
  get_fee_rate_bps = λ s. pos 100;
  is_fee_waived = λ s u. false;
  get_treasury = λ s. some 9;
  get_outcome_token_contract = λ s. none;
}

abbrev tables_laws : IsMarketStore tables
tables_laws = record {
  position_of = λ s m u. s.positions m u;
  get_position = λ s m u p h. ground (arith, h);
  set_position = λ s s' m u p h. ground (arith, h);
  set_position_other =
      λ s s' m k u v p h d. elim d [ inl e ↦ ground (arith, h, e) | inr e ↦ ground (arith, h, e) ];
  set_position_treasury = λ s s' m u p h. refl;
  debit_treasury = λ s s' a n h. refl;
  set_deposit_locked = λ s b m u. refl;
  set_collateral_balance = λ s a n m u. refl;
  debit_collateral_balance = λ s s' a n m u h. ground (arith, h);
  add_market_participant = λ s k a m u. refl;
  set_last_deposit_time = λ s k a at m u. refl;
}

-- Market 1 trades, market 2 is decided for YES.
abbrev pub market_1 : Market
market_1 = record {
  id = 1;
  question = 63 ∷ [];
  end_time = 100000;
  oracle_pubkey = [];
  status = active;
  result = none;
  creator = 3;
  created_at = 0;
  collateral_token = 5;
  price_bps = pos 5000;
  resolver = none;
  resolved_at = none;
  adapter_type = ed25519;
  outcome_count = 2;
  closed_to_deposits = false;
}

abbrev pub market_2 : Market
market_2 = record market_1 { id = 2; status = resolved; result = some true }

abbrev pub bought : Position
bought = record {
  user = 7;
  yes_shares = pos 40;
  no_shares = pos 0;
  locked_collateral = pos 20;
  total_deposited = pos 50;
  market_id = 2;
  is_settled = false;
}

abbrev pub opening : World Tables
opening = record {
  state = record {
    locked = false;
    markets = λ m. if m == 1 then some market_1 else if m == 2 then some market_2 else none;
    positions = at_key (λ m u. none) 2 7 (some bought);
    balances = λ u. pos 0;
    times = λ m u. none;
  };
  log = [];
}

abbrev pub at_time : ℕ → Env
at_time now = record {
  this = 8;
  timestamp = now;
  authorized = λ a. true;
  returns = λ l e. true;
  balance = λ l c m u k. none;
}

abbrev after_deposit : World Tables
after_deposit =
    commit tables opening (Deposit.deposit_collateral tables 7 1 (pos 1000) (at_time 10) opening)

deposits :
    Deposit.deposit_collateral tables 7 1 (pos 1000) (at_time 10) opening ≡ ok (tt, after_deposit)
unfolding Deposit.deposit_collateral Deposit.admit_deposit Deposit.credit_deposit
    Deposit.add_deposit validate_collateral_amount ◌+ℤ◌ ◌/ℤ◌
deposits = refl

deposit_collateral-Deposited_example :
    Deposited tables tables_laws 7 1 (pos 1000) (at_time 10) opening after_deposit
deposit_collateral-Deposited_example =
    deposit_collateral-Deposited tables tables_laws 7 1 (pos 1000) (at_time 10) opening
      after_deposit deposits

abbrev after_withdrawal : World Tables
after_withdrawal =
    commit tables after_deposit
      (Withdrawal.withdraw_unused_collateral tables 7 1 (pos 500) (at_time 4000) after_deposit)

withdraws :
    Withdrawal.withdraw_unused_collateral tables 7 1 (pos 500) (at_time 4000) after_deposit
    ≡ ok (tt, after_withdrawal)
unfolding Withdrawal.withdraw_unused_collateral Withdrawal.admit_withdrawal
    Withdrawal.require_cooled Withdrawal.withdrawable_position Withdrawal.withdrawal_fee
    Withdrawal.debit_withdrawal Withdrawal.pay_withdrawal Deposit.deposit_collateral
    Deposit.admit_deposit Deposit.credit_deposit Deposit.add_deposit validate_collateral_amount
    calculate_fee ◌+ℤ◌ ◌-ℤ◌ ◌*ℤ◌ ◌/ℤ◌
withdraws = refl

withdraw_unused_collateral-Withdrawn_example :
    Withdrawn tables tables_laws 7 1 (pos 500) (at_time 4000) after_deposit after_withdrawal
withdraw_unused_collateral-Withdrawn_example =
    withdraw_unused_collateral-Withdrawn tables tables_laws 7 1 (pos 500) (at_time 4000)
      after_deposit after_withdrawal withdraws

abbrev after_settlement : World Tables
after_settlement = commit tables opening (exec tables (settle 7 2) (at_time 10) opening)

settles : Settlement.settle_position tables 7 2 (at_time 10) opening ≡ ok (pos 40, after_settlement)
unfolding Settlement.settle_position Settlement.admit_settlement Settlement.compute_settlement
    Settlement.burn_settled_outcome_tokens exec
settles = refl

settle_position-Settled_example :
    Settled tables tables_laws 7 2 (pos 40) (at_time 10) opening after_settlement
settle_position-Settled_example =
    settle_position-Settled tables tables_laws 7 2 (pos 40) (at_time 10) opening after_settlement
      settles

-- A deposit, a withdrawal that comes too early, one in time, and the settlement of another market.
abbrev calls : List (Env × Request)
calls =
    (at_time 20, deposit 7 1 (pos 1000))
    ∷ (at_time 30, withdraw 7 1 (pos 100))
    ∷ (at_time 4000, withdraw 7 1 (pos 500))
    ∷ (at_time 4001, settle 7 2)
    ∷ []

settle_position-once_example :
    Settlement.settle_position tables 7 2 (at_time 5000) (run tables calls after_settlement)
    ≢ ok (pos 40, after_settlement)
settle_position-once_example =
    settle_position-once tables tables_laws 2 7 (pos 40) (pos 40) (at_time 10) (at_time 5000)
      opening after_settlement after_settlement calls settles

opening-IsAccounted : IsAccounted tables tables_laws 1 7 opening
opening-IsAccounted = record {
  balance = 0;
  held = refl;
  books = refl;
  backed = omega arith;
  lock_sign = omega arith;
}

run-IsAccounted_example : IsAccounted tables tables_laws 1 7 (run tables calls opening)
run-IsAccounted_example = run-IsAccounted tables tables_laws 1 7 calls opening opening-IsAccounted
