-- ===== src/Resolution/Types.antt =====
-- The data of the resolution contract: contracts/resolution/src/error.rs and types.rs. Addresses
-- are only compared, so they are numbers; `String`, `BytesN<32>` and `BytesN<64>` are lists of bytes.
use vatix_contract.Prelude.{ℕ, ℤ, Bool, true, false, Option, List}

abbrev pub Address : Type 0
Address = ℕ

abbrev pub Bytes : Type 0
Bytes = List ℕ

pub data ContractError : Type 0 where
  candidate_not_found : ContractError
  candidate_already_exists : ContractError
  candidate_already_challenged : ContractError
  candidate_already_finalized : ContractError
  challenge_window_open : ContractError
  challenge_window_closed : ContractError
  invalid_challenge_window : ContractError
  invalid_evidence_uri : ContractError
  signature_expired : ContractError
  invalid_signature_expiry : ContractError
  market_already_resolved : ContractError
  candidate_not_challenged : ContractError
  appeal_limit_exceeded : ContractError
  insufficient_bond : ContractError
  insufficient_collateral : ContractError
  invalid_collateral : ContractError
  insufficient_challenge_bond : ContractError
  not_arbitrable : ContractError
  arbitration_timelock_not_elapsed : ContractError
  unauthorized : ContractError
  not_admin : ContractError
  already_initialized : ContractError
  invalid_admin : ContractError
  emergency_mode_active : ContractError
  contract_paused : ContractError
  upgrade_required : ContractError

pub data MarketStatus : Type 0 where
  active resolved canceled : MarketStatus

pub data EmergencyMode : Type 0 where
  normal trading_halted settle_only global_freeze : EmergencyMode

pub data CandidateStatus : Type 0 where
  proposed challenged finalized voided : CandidateStatus

pub record ChallengeRecord : Type 0 where
  pub challenger : Address
  pub bond : ℤ

pub record ResolutionCandidate : Type 0 where
  pub id : ℕ
  pub market_id : ℕ
  pub outcome : Bool
  pub signature : Bytes
  pub signature_expiry : ℕ
  pub proposer : Address
  pub evidence_uri : Bytes
  pub proposed_at : ℕ
  pub challenge_deadline : ℕ
  pub status : CandidateStatus
  pub challenged_by : Option Address
  pub challenge_uri : Option Bytes
  pub finalized_at : Option ℕ
  pub appeal_round : ℕ
  pub bond_amount : ℤ
  pub epoch : ℕ
  pub passphrase_hash : Option Bytes

pub record ResolutionConfig : Type 0 where
  pub admin : Address
  pub factory : Address
  pub market_contract : Address
  pub challenge_window_secs : ℕ

pub record PendingAddressChange : Type 0 where
  pub new_address : Address
  pub effective_at : ℕ

-- The derived `==` of the enums that the code compares.
abbrev pub mode_eq : EmergencyMode → EmergencyMode → Bool
mode_eq normal normal = true
mode_eq trading_halted trading_halted = true
mode_eq settle_only settle_only = true
mode_eq global_freeze global_freeze = true
mode_eq a b = false

abbrev pub status_eq : CandidateStatus → CandidateStatus → Bool
status_eq proposed proposed = true
status_eq challenged challenged = true
status_eq finalized finalized = true
status_eq voided voided = true
status_eq a b = false

abbrev pub is_active : MarketStatus → Bool
is_active active = true
is_active s = false
