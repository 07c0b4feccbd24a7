-- ===== src/Treasury/Fees.antt =====
-- The collection and the withdrawal of fees: `collect_fee` and `withdraw_fees` of
-- contracts/treasury/src/lib.rs.
pub mod Collection
pub mod Withdrawal
use vatix_contract.Prelude.{
  ℕ, ℤ, pos, leb_ℤ, ltb_ℤ, ⊤, not, unwrap_or, i128_max, checked_add, checked_sub, ask, expect, pure,
  fail_if, ◌>>=◌, ◌>>◌,
}
use vatix_contract.Treasury.Types.{Address, insufficient_balance, invalid_amount, caller_not_market}
use vatix_contract.Treasury.World.{Accessors, M}
use vatix_contract.Treasury.Storage.{
  is_authorized_market, get_token_balance, set_token_balance, get_cumulative_fees,
  set_cumulative_fees,
}
use vatix_contract.Treasury.Events.{emit_fee_collected, emit_fees_withdrawn}
use vatix_contract.Treasury.Guards.{
  require_initialized, require_admin, require_open, answer, poke, transfer,
}

-- `checked_add(..).unwrap_or(i128::MAX)`
abbrev pub capped_add : ℤ → ℤ → ℤ
capped_add a b = unwrap_or (checked_add a b) (pos i128_max)

module _ {S Mode : Type 0} (access : Accessors S Mode) where
  unfoldable pub collect_fee : Address → Address → ℕ → ℤ → M S Mode ⊤
  collect_fee caller token market_id fee_amount = do
    require_initialized caller
    require_open access
    registered ← is_authorized_market caller
    fail_if (not registered) caller_not_market
    fail_if (leb_ℤ fee_amount (pos 0)) invalid_amount
    poke (λ s. access.register_fee_token s token)
    prev_balance ← get_token_balance token
    let new_balance = capped_add prev_balance fee_amount
    set_token_balance token new_balance
    prev_cumulative ← get_cumulative_fees token
    let new_cumulative = capped_add prev_cumulative fee_amount
    set_cumulative_fees token new_cumulative
    prev_total ← answer access.get_total_collected
    poke (λ s. access.set_total_collected s (capped_add prev_total fee_amount))
    emit_fee_collected market_id token fee_amount new_balance new_cumulative

  unfoldable pub withdraw_fees : Address → Address → Address → ℤ → M S Mode ⊤
  withdraw_fees caller token to amount = do
    require_initialized caller
    require_open access
    require_admin caller
    fail_if (leb_ℤ amount (pos 0)) invalid_amount
    balance ← get_token_balance token
    fail_if (ltb_ℤ balance amount) insufficient_balance
    remaining ← expect (checked_sub balance amount)
    set_token_balance token remaining
    treasury ← ask (λ env. env.this)
    transfer token treasury to amount
    emit_fees_withdrawn token to amount remaining
