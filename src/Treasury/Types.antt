-- ===== src/Treasury/Types.antt =====
-- The data of the treasury contract: contracts/treasury/src/error.rs and the structs of storage.rs.
use vatix_contract.Prelude.{ℕ, List}

abbrev pub Address : Type 0
Address = ℕ

pub data TreasuryError : Type 0 where
  upgrade_required insufficient_balance invalid_amount invalid_stakeholder_weights not_initialized
        no_stakeholders_configured no_pending_stakeholder_change caller_not_market unauthorized
        invalid_admin already_initialized contract_paused emergency_mode_active deposits_paused
        arithmetic_overflow timelock_not_elapsed :
      TreasuryError

pub record PendingAddressChange : Type 0 where
  pub new_address : Address
  pub effective_at : ℕ

-- A revenue share: the stakeholder and its ten-thousandths.
abbrev pub Share : Type 0
Share = Address × ℕ

pub record PendingStakeholders : Type 0 where
  pub stakeholders : List Share
  pub effective_at : ℕ
