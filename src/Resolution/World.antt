-- ===== src/Resolution/World.antt =====
-- What an entry point of the resolution contract reads and writes: the persistent storage
-- (contracts/resolution/src/storage.rs, `StorageKey`), the host's answers, and the log of the calls
-- of other contracts and of the published events (contracts/resolution/src/events.rs).
use vatix_contract.Prelude.{ℕ, ℤ, Bool, Option, none, List, [], ⊤, Outcome, Call}
use vatix_contract.Resolution.Types.{
  Address, Bytes, ContractError, MarketStatus, EmergencyMode, ChallengeRecord, ResolutionCandidate,
  ResolutionConfig, PendingAddressChange,
}

-- One field for each key; a field with an argument is a key that carries data. An absent entry is
-- `none`.
pub record Storage : Type 0 where
  pub storage_version : Option ℕ
  pub config : Option ResolutionConfig
  pub candidate_counter : Option ℕ
  pub candidate : ℕ → Option ResolutionCandidate
  pub candidate_by_market : ℕ → Option ℕ
  pub proposer_collateral : Address → Option ℤ
  pub challengers : ℕ → Option (List ChallengeRecord)
  pub treasury : Option Address
  pub pending_treasury : Option PendingAddressChange
  pub pending_factory : Option PendingAddressChange
  pub pending_market_contract : Option PendingAddressChange
  pub emergency_mode : Option EmergencyMode
  pub paused : Option Bool

-- The calls that change the market contract, with their arguments.
pub data MarketCall : Type 0 where
  resolve_market :
      (caller : Address) (market_id : Bytes) (outcome : Bool) (signature : Bytes) (expiry : ℕ)
      → MarketCall
  resolve_market_v2 :
      (caller : Address) (market_id : Bytes) (outcome : Bool) (valid_until epoch : ℕ)
      (signature passphrase_hash : Bytes)
      → MarketCall
  void_market : (caller : Address) (market_id : ℕ) → MarketCall

pub data Event : Type 0 where
  resolution_registered : (factory market_contract : Address) (registered_at : ℕ) → Event
  candidate_proposed :
      (candidate_id market_id : ℕ) (outcome : Bool) (proposer : Address) (evidence_uri : Bytes)
      (challenge_deadline signature_expiry : ℕ) (bond_amount : ℤ)
      → Event
  candidate_challenged :
      (candidate_id market_id : ℕ) (challenger : Address) (challenge_uri : Bytes) (bond_amount : ℤ)
      (challenged_at : ℕ)
      → Event
  bond_slashed :
      (candidate_id market_id : ℕ) (loser winner : Address) (total reward burned treasury_cut : ℤ)
      (slashed_at : ℕ)
      → Event
  bond_refunded :
      (candidate_id market_id : ℕ) (recipient : Address) (amount : ℤ) (refunded_at : ℕ) → Event
  candidate_arbitrated : (candidate_id market_id : ℕ) (outcome : Bool) (arbitrated_at : ℕ) → Event
  market_voided : (candidate_id market_id voided_at : ℕ) → Event
  factory_proposed : (factory : Address) (effective_at : ℕ) → Event
  factory_set : (factory : Address) (set_at : ℕ) → Event
  market_contract_proposed : (market_contract : Address) (effective_at : ℕ) → Event
  market_contract_set : (market_contract : Address) (set_at : ℕ) → Event
  treasury_proposed : (treasury : Address) (effective_at : ℕ) → Event
  treasury_set : (treasury : Address) (set_at : ℕ) → Event
  candidate_finalized : (candidate_id market_id : ℕ) (outcome : Bool) (finalized_at : ℕ) → Event
  candidate_appealed :
      (candidate_id market_id : ℕ) (outcome : Bool) (proposer : Address) (appeal_round : ℕ)
      (evidence_uri : Bytes) (challenge_deadline appealed_at : ℕ)
      → Event
  resolution_paused : (admin : Address) (paused_at : ℕ) → Event
  resolution_unpaused : (admin : Address) (unpaused_at : ℕ) → Event
  emergency_mode_changed : (new_mode : EmergencyMode) (admin : Address) (changed_at : ℕ) → Event
  collateral_slashed : (proposer recipient : Address) (amount : ℤ) (slashed_at : ℕ) → Event

-- What the contract does to the outside.
pub data Effect : Type 0 where
  transfer : (token from to : Address) (amount : ℤ) → Effect
  burn : (token from : Address) (amount : ℤ) → Effect
  invoke : (contract : Address) (call : MarketCall) → Effect
  publish : Event → Effect

-- The newest effect first.
abbrev pub Log : Type 0
Log = List Effect

pub record World : Type 0 where
  pub storage : Storage
  pub log : Log

-- The host in one invocation. The answers of other contracts may depend on all that happened
-- before, which the log stands for; `none` and `false` are answers that trap.
pub record Env : Type 0 where
  -- `env.current_contract_address()` and `env.ledger().timestamp()`
  pub this : Address
  pub timestamp : ℕ
  -- `require_auth` returns, and `Address::executable().is_some()`
  pub authorized : Address → Bool
  pub executable : Address → Bool
  pub transfer_returns : Log → Address → Address → Address → ℤ → Bool
  pub burn_returns : Log → Address → Address → ℤ → Bool
  pub market_call_returns : Log → Address → MarketCall → Bool
  pub get_market_status : Log → Address → ℕ → Option MarketStatus
  pub get_collateral_token : Log → Address → ℕ → Option Address
  -- market id, outcome, signature
  pub verify_signature : Log → Address → ℕ → Bool → Bytes → Outcome ContractError ⊤
  -- passphrase hash, market id, outcome, valid until, epoch, signature
  pub verify_signature_v2 :
      Log → Address → Bytes → ℕ → Bool → ℕ → ℕ → Bytes → Outcome ContractError ⊤

abbrev pub M : Type 0 → Type 0
M A = Call ContractError Env World A

-- The storage and the log before the contract is deployed.
abbrev pub fresh : World
fresh = record {
  storage = record {
    storage_version = none;
    config = none;
    candidate_counter = none;
    candidate = λ k. none;
    candidate_by_market = λ k. none;
    proposer_collateral = λ k. none;
    challengers = λ k. none;
    treasury = none;
    pending_treasury = none;
    pending_factory = none;
    pending_market_contract = none;
    emergency_mode = none;
    paused = none;
  };
  log = [];
}
