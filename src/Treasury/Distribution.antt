-- ===== src/Treasury/Distribution.antt =====
-- The revenue shares: `propose_stakeholders`, `execute_stakeholders`, `cancel_stakeholders` and
-- `distribute_fees` of contracts/treasury/src/lib.rs.
pub mod Shares
pub mod Payments
pub mod Frame
pub mod Returning
use vatix_contract.Prelude.{
  ℕ, ℤ, pos, leb_ℤ, ltb_ℤ, ◌/ℤ◌, Bool, true, false, Option, none, some, List, [], ◌∷◌, ◌++◌, map, ⊤,
  not, ltb, length, ◌&&◌, if◌then◌else◌, checked_add, checked_sub, checked_mul, ask, expect, pure,
  ok_or, fail_if, ◌>>=◌, ◌>>◌,
}
use vatix_contract.Treasury.Types.{
  Address, Share, PendingStakeholders, insufficient_balance, invalid_stakeholder_weights,
  no_stakeholders_configured, no_pending_stakeholder_change, arithmetic_overflow,
  timelock_not_elapsed,
}
use vatix_contract.Treasury.World.{Accessors, M}
use vatix_contract.Treasury.Storage.{get_token_balance, set_token_balance}
use vatix_contract.Treasury.Events.{
  emit_stakeholders_proposed, emit_stakeholders_updated, emit_fees_distributed,
}
use vatix_contract.Treasury.Guards.{
  address_timelock_seconds, add_u64, now, require_initialized, require_admin, as_admin,
  require_open, peek, answer, poke, transfer,
}

abbrev pub bps_denominator : ℕ
bps_denominator = 10000

abbrev pub is_empty {ℓ} : {A : Type ℓ} → List A → Bool
is_empty [] = true
is_empty (x ∷ xs) = false

-- The loop that adds up the weights; `none` is its overflow.
unfoldable pub sum_shares : List Share → ℤ → Option ℤ
sum_shares [] total = some total
sum_shares ((a, share_bps) ∷ xs) total = elim (checked_add total (pos share_bps)) [
  | none ↦ none
  | some t ↦ sum_shares xs t
]

-- The loop of `distribute_fees`: the payouts so far and their sum. `none` is its overflow.
unfoldable pub compute_payouts :
    ℤ → List Share → List (Address × ℤ) → ℤ → Option (List (Address × ℤ) × ℤ)
compute_payouts balance [] payouts distributed = some (payouts, distributed)
compute_payouts balance ((stakeholder, share_bps) ∷ xs) payouts distributed =
    elim (checked_mul balance (pos share_bps)) [
      | none ↦ none
      | some product ↦
          let amount = product /ℤ bps_denominator in
          elim (ltb_ℤ (pos 0) amount) [
            | false ↦ compute_payouts balance xs payouts distributed
            | true ↦ elim (checked_add distributed amount) [
              | none ↦ none
              | some sum ↦ compute_payouts balance xs (payouts ++ (stakeholder, amount) ∷ []) sum
            ]
          ]
    ]

module _ {S Mode : Type 0} where
  -- The loop of the transfers.
  unfoldable pub pay_each : Address → Address → List (Address × ℤ) → M S Mode ⊤
  pay_each token treasury [] = pure tt
  pay_each token treasury ((stakeholder, amount) ∷ xs) = do
    transfer token treasury stakeholder amount
    pay_each token treasury xs

  -- The payments behind the guards, for the balance and the list that were read.
  unfoldable pub distribute : Address → ℤ → List Share → M S Mode ⊤
  distribute token balance stakeholders = do
    (payouts, distributed) ←
        ok_or (compute_payouts balance stakeholders [] (pos 0)) arithmetic_overflow
    remaining ← expect (checked_sub balance distributed)
    set_token_balance token remaining
    treasury ← ask (λ env. env.this)
    pay_each token treasury payouts
    emit_fees_distributed token distributed remaining (length stakeholders)

module _ {S Mode : Type 0} (access : Accessors S Mode) where
  unfoldable pub propose_stakeholders : Address → List Share → M S Mode ⊤
  propose_stakeholders caller stakeholders = do
    as_admin caller
    fail_if (is_empty stakeholders) invalid_stakeholder_weights
    total ← ok_or (sum_shares stakeholders (pos 0)) arithmetic_overflow
    fail_if (not (leb_ℤ total (pos bps_denominator) && leb_ℤ (pos bps_denominator) total))
        invalid_stakeholder_weights
    at ← now
    effective_at ← add_u64 at address_timelock_seconds
    poke (λ s.
        access.set_pending_stakeholders s
          (record { stakeholders = stakeholders; effective_at = effective_at }))
    emit_stakeholders_proposed (map (λ x. x.0) stakeholders) (map (λ x. x.1) stakeholders)
        effective_at

  unfoldable pub execute_stakeholders : M S Mode ⊤
  execute_stakeholders = do
    found ← peek access.get_pending_stakeholders
    pending ← ok_or found no_pending_stakeholder_change
    at ← now
    fail_if (ltb at pending.effective_at) timelock_not_elapsed
    poke (λ s. access.set_stakeholders s pending.stakeholders)
    poke access.clear_pending_stakeholders
    emit_stakeholders_updated (map (λ x. x.0) pending.stakeholders)
        (map (λ x. x.1) pending.stakeholders)

  unfoldable pub cancel_stakeholders : Address → M S Mode ⊤
  cancel_stakeholders caller = do as_admin caller; poke access.clear_pending_stakeholders

  unfoldable pub distribute_fees : Address → Address → M S Mode ⊤
  distribute_fees caller token = do
    require_initialized caller
    require_open access
    require_admin caller
    stakeholders ← answer access.get_stakeholders
    fail_if (is_empty stakeholders) no_stakeholders_configured
    balance ← get_token_balance token
    fail_if (leb_ℤ balance (pos 0)) insufficient_balance
    distribute token balance stakeholders
