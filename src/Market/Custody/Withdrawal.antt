-- ===== src/Market/Custody/Withdrawal.antt =====
-- `withdraw_unused_collateral` of contracts/market/src/withdraw.rs.
pub mod Admission
pub mod Payment
pub mod Effects
use vatix_contract.Prelude.{
  ℕ, ◌-◌, ◌*◌, ◌^◌, ℤ, pos, negsuc, ◌-ℤ◌, leb_ℤ, ltb_ℤ, Bool, true, false, ◌&&◌, not, Option, none,
  some, List, [], ◌∷◌, ⊤, ltb, fits_i128, i128_max, if◌then◌else◌, checked_add, checked_sub, ask,
  pure, throw, ok_or, expect, fail_if, when, ◌>>=◌, ◌>>◌,
}
use vatix_contract.Market.Types.{
  Address, market_not_active, withdraw_cooldown_active, insufficient_collateral,
  arithmetic_overflow, Market, Position, normal, trading_halted, settle_only,
}
use vatix_contract.Market.Validation.{
  validate_collateral_amount, validate_fee_rate_bps, calculate_fee, eqb_ℤ,
}
use vatix_contract.Market.Custody.Store.{MarketStore, declared}
use vatix_contract.Market.Custody.World.{
  M, now, require_auth, validated, validated_ℤ, emit, call, peek, put,
  require_emergency_mode_allows, collateral_withdrawn, large_withdraw, withdraw_edge_case,
  fee_calculated, fee_retained_no_treasury, transfer, collect_fee,
}
use vatix_contract.Market.Custody.Deposit.{is_active, load_market, load_position, save_position}

abbrev pub withdraw_cooldown_seconds : ℕ
withdraw_cooldown_seconds = 3600

abbrev pub large_withdraw_threshold : ℤ
large_withdraw_threshold = pos (10 ^ 13)

-- `i128::saturating_sub`
abbrev pub saturating_sub : ℤ → ℤ → ℤ
saturating_sub a b =
    if fits_i128 (a -ℤ b)
    then a -ℤ b
    else if ltb_ℤ (a -ℤ b) (pos 0)
    then negsuc i128_max
    else pos i128_max

-- The time since the last deposit, 0 if that lies ahead, is too short; never so without a deposit.
abbrev pub is_cooling : Option ℕ → ℕ → Bool
is_cooling none at = false
is_cooling (some last_deposit_time) at = ltb (at - last_deposit_time) withdraw_cooldown_seconds

module _ {S : Type 0} (store : MarketStore S) where
  -- A position without deposits has nothing to withdraw.
  unfoldable pub withdrawable_position : Address → ℕ → ℤ → M S Position
  withdrawable_position user market_id amount = do
    position ← load_position store market_id user
    when (eqb_ℤ position.total_deposited (pos 0)) (do
      emit (withdraw_edge_case user market_id amount)
      throw (declared insufficient_collateral))
    pure position

  -- The market is active and the user's last deposit is old enough.
  unfoldable pub require_cooled : Address → ℕ → Market → M S ⊤
  require_cooled user market_id market = do
    fail_if (not (is_active market.status)) (declared market_not_active)
    last ← peek (λ s. store.get_last_deposit_time s market_id user)
    at ← now
    fail_if (is_cooling last at) (declared withdraw_cooldown_active)

  unfoldable pub admit_withdrawal : Address → ℕ → ℤ → M S Market
  admit_withdrawal user market_id amount = do
    require_auth user
    require_emergency_mode_allows store (normal ∷ trading_halted ∷ settle_only ∷ [])
    validated (validate_collateral_amount amount)
    market ← load_market store market_id
    require_cooled user market_id market
    pure market

  -- Nothing for a waived user or without a rate.
  unfoldable pub withdrawal_fee : Address → ℤ → M S ℤ
  withdrawal_fee user amount = do
    fee_rate_bps ← peek store.get_fee_rate_bps
    validated (validate_fee_rate_bps fee_rate_bps)
    waived ← peek (λ s. store.is_fee_waived s user)
    if ltb_ℤ (pos 0) fee_rate_bps && not waived
        then validated_ℤ (calculate_fee amount fee_rate_bps)
        else pure (pos 0)

  -- What the position has left, which is stored before any payment.
  unfoldable pub debit_withdrawal : Address → ℕ → Position → ℤ → ℤ → M S ℤ
  debit_withdrawal user market_id position amount fee_amount = do
    let available = saturating_sub position.total_deposited position.locked_collateral
    when (ltb_ℤ (pos 0) fee_amount) (emit (fee_calculated market_id user fee_amount available))
    total_required ← ok_or (checked_add amount fee_amount) (declared arithmetic_overflow)
    fail_if (ltb_ℤ available total_required) (declared insufficient_collateral)
    total_deducted ← ok_or (checked_add amount fee_amount) (declared arithmetic_overflow)
    total_deposited ←
        ok_or (checked_sub position.total_deposited total_deducted) (declared arithmetic_overflow)
    save_position store market_id user (record position { total_deposited = total_deposited })
    debited ← peek (λ s. store.debit_collateral_balance s user total_deducted)
    s ← expect debited
    put s
    pure total_deposited

  -- The fee goes to the treasury, which is told of it, or stays in the contract.
  abbrev pub route_fee : Address → Address → ℕ → ℤ → Option Address → M S ⊤
  route_fee token user market_id fee_amount none =
      emit (fee_retained_no_treasury market_id user fee_amount)
  route_fee token user market_id fee_amount (some treasury_addr) = do
    contract_address ← ask (λ env. env.this)
    call (transfer token contract_address treasury_addr fee_amount)
    call (collect_fee treasury_addr contract_address token market_id fee_amount)

  unfoldable pub pay_withdrawal : Address → Address → ℕ → ℤ → ℤ → ℤ → M S ⊤
  pay_withdrawal token user market_id amount fee_amount total_deposited = do
    treasury ← peek store.get_treasury
    when (ltb_ℤ (pos 0) fee_amount) (route_fee token user market_id fee_amount treasury)
    contract_address ← ask (λ env. env.this)
    call (transfer token contract_address user amount)
    emit (collateral_withdrawn user market_id amount total_deposited)
    at ← now
    when (leb_ℤ large_withdraw_threshold amount) (emit (large_withdraw user market_id amount at))

  unfoldable pub withdraw_unused_collateral : Address → ℕ → ℤ → M S ⊤
  withdraw_unused_collateral user market_id amount = do
    market ← admit_withdrawal user market_id amount
    position ← withdrawable_position user market_id amount
    fee_amount ← withdrawal_fee user amount
    total_deposited ← debit_withdrawal user market_id position amount fee_amount
    pay_withdrawal market.collateral_token user market_id amount fee_amount total_deposited
