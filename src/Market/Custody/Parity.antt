-- ===== src/Market/Custody/Parity.antt =====
-- The comparison of a position with the user's outcome tokens: contracts/market/src/reconciliation.rs.
use vatix_contract.Prelude.{
  ℕ, ℤ, Bool, ◌&&◌, ◌||◌, Option, none, some, ⊤, if◌then◌else◌, unwrap_or, Outcome, ok, err, trap,
  gets, ask, pure, panic, expect, ◌>>=◌, ◌>>◌,
}
use vatix_contract.Market.Types.{Address, Position}
use vatix_contract.Market.Validation.{eqb_ℤ}
use vatix_contract.Market.Positions.{empty_position}
use vatix_contract.Market.Custody.Store.{Failure, MarketStore, position_token_mismatch}
use vatix_contract.Market.Custody.World.{
  M, emit, peek, answer, TokenKind, yes_token, no_token, position_token_mismatch_detected,
}

pub record PositionTokenParity : Type 0 where
  pub yes_shares : ℤ
  pub no_shares : ℤ
  pub yes_token_balance : ℤ
  pub no_token_balance : ℤ
  pub is_matched : Bool

-- A balance of the outcome token, whose contract traps unless it answers.
abbrev pub balance_of : {S : Type 0} → Address → ℕ → Address → TokenKind → M S ℤ
balance_of contract market_id user kind = do
  balance ← ask (λ env. env.balance)
  log ← gets (λ w. w.log)
  expect (balance log contract market_id user kind)

module _ {S : Type 0} (store : MarketStore S) where
  abbrev pub balances_of : ℕ → Address → Option Address → M S (Option (ℤ × ℤ))
  balances_of market_id user none = pure none
  balances_of market_id user (some outcome_token_address) = do
    yes_balance ← balance_of outcome_token_address market_id user yes_token
    no_balance ← balance_of outcome_token_address market_id user no_token
    pure (some (yes_balance, no_balance))

  abbrev pub load_token_balances : ℕ → Address → M S (Option (ℤ × ℤ))
  load_token_balances market_id user = do
    contract ← peek store.get_outcome_token_contract
    balances_of market_id user contract

  abbrev pub parity_of : Position → Option (ℤ × ℤ) → PositionTokenParity
  parity_of position found =
      let (yes_balance, no_balance) = unwrap_or found (position.yes_shares, position.no_shares) in
      record {
        yes_shares = position.yes_shares;
        no_shares = position.no_shares;
        yes_token_balance = yes_balance;
        no_token_balance = no_balance;
        is_matched =
            position.is_settled
            || (eqb_ℤ yes_balance position.yes_shares && eqb_ℤ no_balance position.no_shares);
      }

  abbrev pub parity : ℕ → Address → Option Position → M S PositionTokenParity
  parity market_id user stored = do
    found ← load_token_balances market_id user
    pure (parity_of (unwrap_or stored (empty_position market_id user)) found)

  unfoldable pub get_position_token_parity : ℕ → Address → M S PositionTokenParity
  get_position_token_parity market_id user = do
    stored ← answer (λ s. store.get_position s market_id user)
    parity market_id user stored

  -- The checks of a settlement answer a `Result` as a value, since a batch goes on after an error and
  -- keeps what was done before it.
  abbrev pub report_mismatch : ℕ → Address → PositionTokenParity → M S (Outcome Failure ⊤)
  report_mismatch market_id user found = if found.is_matched then pure (ok tt) else do
    emit (
        position_token_mismatch_detected market_id user found.yes_shares found.no_shares
          found.yes_token_balance found.no_token_balance)
    pure (err position_token_mismatch)

  abbrev pub parity_check :
      ℕ → Address → Outcome Failure (Option Position) → M S (Outcome Failure ⊤)
  parity_check market_id user (err e) = pure (err e)
  parity_check market_id user trap = panic
  parity_check market_id user (ok stored) = do
    found ← parity market_id user stored
    report_mismatch market_id user found

  abbrev pub assert_position_token_parity : ℕ → Address → M S (Outcome Failure ⊤)
  assert_position_token_parity market_id user = do
    stored ← peek (λ s. store.get_position s market_id user)
    parity_check market_id user stored
