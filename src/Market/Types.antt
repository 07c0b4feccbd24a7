-- ===== src/Market/Types.antt =====
-- The errors and the small data of the market contract: contracts/market/src/error.rs and types.rs.
use vatix_contract.Prelude.{ℕ, ℤ, Bool, List, Option}

abbrev pub Address : Type 0
Address = ℕ

abbrev pub Bytes : Type 0
Bytes = List ℕ

pub data ContractError : Type 0 where
  market_not_found market_already_resolved market_not_resolved market_expired market_not_active
        market_closed_to_deposits withdraw_cooldown_active insufficient_collateral
        position_already_settled no_position_found invalid_share_amount batch_too_large
        invalid_signature unauthorized_oracle invalid_outcome oracle_price_unavailable
        oracle_message_expired invalid_threshold_quorum stale_price invalid_price invalid_quantity
        invalid_timestamp invalid_question invalid_outcome_count invalid_admin below_min_deposit
        invalid_metadata_uri invalid_fee_rate invalid_fee_waiver_account unauthorized wrong_role
        auth_expired replayed_action token_transfer_failed invalid_token arithmetic_overflow
        arithmetic_underflow division_by_zero treasury_operation_failed
        insufficient_treasury_balance reconciliation_failed conservation_violation :
      ContractError

pub data MarketStatus : Type 0 where
  active resolved canceled : MarketStatus

pub data EmergencyMode : Type 0 where
  normal trading_halted settle_only global_freeze : EmergencyMode

pub data AdapterType : Type 0 where
  ed25519 reflector pyth : AdapterType

pub record Market : Type 0 where
  pub id : ℕ
  pub question : Bytes
  pub end_time : ℕ
  pub oracle_pubkey : Bytes
  pub status : MarketStatus
  pub result : Option Bool
  pub creator : Address
  pub created_at : ℕ
  pub collateral_token : Address
  pub price_bps : ℤ
  pub resolver : Option Address
  pub resolved_at : Option ℕ
  pub adapter_type : AdapterType
  pub outcome_count : ℕ
  pub closed_to_deposits : Bool

pub record Position : Type 0 where
  pub user : Address
  pub yes_shares : ℤ
  pub no_shares : ℤ
  pub locked_collateral : ℤ
  pub total_deposited : ℤ
  pub market_id : ℕ
  pub is_settled : Bool
