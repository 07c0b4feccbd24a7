-- ===== src/Market/Custody/Deposit.antt =====
-- `deposit_collateral` of contracts/market/src/deposit.rs.
pub mod Effects
use vatix_contract.Prelude.{
  ℕ, ℤ, pos, leb_ℤ, Bool, true, false, not, List, [], ◌∷◌, ⊤, leb, checked_add, unwrap_or, ask,
  pure, ok_or, fail_if, ◌>>=◌, ◌>>◌,
}
use vatix_contract.Market.Types.{
  Address, ContractError, market_not_found, market_not_active, market_closed_to_deposits,
  market_expired, invalid_quantity, arithmetic_overflow, Market, MarketStatus, active, resolved,
  canceled, Position, normal,
}
use vatix_contract.Market.Validation.{validate_collateral_amount}
use vatix_contract.Market.Positions.{empty_position}
use vatix_contract.Market.Custody.Store.{MarketStore, declared, reentrant_call}
use vatix_contract.Market.Custody.World.{
  M, now, require_auth, validated, emit, call, peek, answer, put, poke,
  require_emergency_mode_allows, collateral_deposited, transfer,
}

abbrev pub is_active : MarketStatus → Bool
is_active active = true
is_active resolved = false
is_active canceled = false

module _ {S : Type 0} (store : MarketStore S) where
  -- `DepositReentrancyGuard`, whose drop releases the lock.
  abbrev pub acquire : M S ⊤
  acquire = do
    locked ← peek store.is_deposit_locked
    fail_if locked reentrant_call
    poke (λ s. store.set_deposit_locked s true)

  abbrev pub release : M S ⊤
  release = poke (λ s. store.set_deposit_locked s false)

  -- `storage::get_market(..)?.ok_or(ContractError::MarketNotFound)?`
  abbrev pub load_market : ℕ → M S Market
  load_market market_id = do
    found ← answer (λ s. store.get_market s market_id)
    ok_or found (declared market_not_found)

  -- The position of a user, who has an empty one at first.
  abbrev pub load_position : ℕ → Address → M S Position
  load_position market_id user = do
    found ← answer (λ s. store.get_position s market_id user)
    pure (unwrap_or found (empty_position market_id user))

  abbrev pub save_position : ℕ → Address → Position → M S ⊤
  save_position market_id user position = do
    s ← answer (λ s. store.set_position s market_id user position)
    put s

  -- What has to hold before anything is written.
  unfoldable pub admit_deposit : Address → ℕ → ℤ → M S Market
  admit_deposit user market_id amount = do
    require_auth user
    require_emergency_mode_allows store (normal ∷ [])
    acquire
    fail_if (leb_ℤ amount (pos 0)) (declared invalid_quantity)
    validated (validate_collateral_amount amount)
    market ← load_market market_id
    fail_if (not (is_active market.status)) (declared market_not_active)
    fail_if market.closed_to_deposits (declared market_closed_to_deposits)
    at ← now
    fail_if (leb market.end_time at) (declared market_expired)
    pure market

  unfoldable pub add_deposit : Address → ℕ → ℤ → M S ℤ
  add_deposit user market_id amount = do
    position ← load_position market_id user
    total_deposited ←
        ok_or (checked_add position.total_deposited amount) (declared arithmetic_overflow)
    save_position market_id user (record position { total_deposited = total_deposited })
    pure total_deposited

  -- The two balances of the user, and the new total in the market.
  unfoldable pub credit_deposit : Address → ℕ → ℤ → M S ℤ
  credit_deposit user market_id amount = do
    balance ← peek (λ s. store.get_collateral_balance s user)
    new_collateral_balance ← ok_or (checked_add balance amount) (declared arithmetic_overflow)
    poke (λ s. store.set_collateral_balance s user new_collateral_balance)
    total_deposited ← add_deposit user market_id amount
    poke (λ s. store.add_market_participant s market_id user)
    at ← now
    poke (λ s. store.set_last_deposit_time s market_id user at)
    pure total_deposited

  unfoldable pub deposit_collateral : Address → ℕ → ℤ → M S ⊤
  deposit_collateral user market_id amount = do
    market ← admit_deposit user market_id amount
    total_deposited ← credit_deposit user market_id amount
    contract_address ← ask (λ env. env.this)
    call (transfer market.collateral_token user contract_address amount)
    emit (collateral_deposited user market_id amount total_deposited)
    release
