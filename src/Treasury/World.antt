-- ===== src/Treasury/World.antt =====
-- What an entry point of the treasury reads and writes: the storage that
-- contracts/treasury/src/storage.rs has accessors for, the keys whose accessors are absent from it,
-- the host's answers, and the log of transfers and events.
use vatix_contract.Prelude.{ℕ, ℤ, Bool, Option, none, List, [], Outcome, Call}
use vatix_contract.Treasury.Types.{
  Address, TreasuryError, PendingAddressChange, Share, PendingStakeholders,
}

-- One field for each key with accessors; an absent entry is `none`.
pub record Storage : Type 0 where
  pub storage_version : Option ℕ
  pub admin : Option Address
  pub pending_admin : Option PendingAddressChange
  pub authorized_markets : Option (List Address)
  pub pending_market_contract : Option PendingAddressChange
  pub deposits_paused : Option Bool
  pub token_balance : Address → Option ℤ
  pub cumulative_fees : Address → Option ℤ

-- The accessors that lib.rs calls and storage.rs does not define, over a type `S` of what they keep,
-- and the type of the emergency mode. A read that answers a `Result` may look at the other keys too.
pub record Accessors (S Mode : Type 0) : Type 0 where
  pub normal : Mode
  pub trading_halted : Mode
  pub settle_only : Mode
  pub same_mode : Mode → Mode → Bool
  pub get_emergency_mode : S → Mode
  pub set_emergency_mode : S → Mode → S
  pub is_paused : S → Bool
  pub set_paused : S → Bool → S
  pub register_fee_token : S → Address → S
  pub get_total_collected : Storage → S → Outcome TreasuryError ℤ
  pub set_total_collected : S → ℤ → S
  pub get_stakeholders : Storage → S → Outcome TreasuryError (List Share)
  pub set_stakeholders : S → List Share → S
  pub get_pending_stakeholders : S → Option PendingStakeholders
  pub set_pending_stakeholders : S → PendingStakeholders → S
  pub clear_pending_stakeholders : S → S

pub data Event (Mode : Type 0) : Type 0 where
  treasury_initialized : (admin market_contract : Address) (initialized_at : ℕ) → Event Mode
  fee_collected :
      (market_id : ℕ) (token : Address) (fee_amount new_token_balance new_cumulative_fees : ℤ)
      → Event Mode
  fees_withdrawn : (token to : Address) (amount remaining_token_balance : ℤ) → Event Mode
  admin_transferred : (old_admin new_admin : Address) (transferred_at : ℕ) → Event Mode
  admin_transfer_proposed : (old_admin new_admin : Address) (effective_at : ℕ) → Event Mode
  market_contract_proposed : (new_market_contract : Address) (effective_at : ℕ) → Event Mode
  market_contract_set : (new_market_contract : Address) (set_at : ℕ) → Event Mode
  market_added : (market_contract : Address) → Event Mode
  market_removed : (market_contract : Address) → Event Mode
  stakeholders_proposed :
      (stakeholders : List Address) (shares_bps : List ℕ) (effective_at : ℕ) → Event Mode
  stakeholders_updated :
      (count : ℕ) (stakeholders : List Address) (shares_bps : List ℕ) (updated_at : ℕ) → Event Mode
  fees_distributed :
      (token : Address) (distributed_amount remaining_token_balance : ℤ)
      (stakeholder_count distributed_at : ℕ)
      → Event Mode
  treasury_paused : (admin : Address) (paused_at : ℕ) → Event Mode
  treasury_unpaused : (admin : Address) (unpaused_at : ℕ) → Event Mode
  emergency_mode_changed : (new_mode : Mode) (admin : Address) (changed_at : ℕ) → Event Mode

pub data Effect (Mode : Type 0) : Type 0 where
  transfer : (token from to : Address) (amount : ℤ) → Effect Mode
  publish : Event Mode → Effect Mode

-- The newest effect first.
abbrev pub Log : Type 0 → Type 0
Log Mode = List (Effect Mode)

pub record World (S Mode : Type 0) : Type 0 where
  pub storage : Storage
  pub rest : S
  pub log : Log Mode

-- The host in one invocation.
pub record Env (Mode : Type 0) : Type 0 where
  pub this : Address
  pub timestamp : ℕ
  pub authorized : Address → Bool
  pub executable : Address → Bool
  pub transfer_returns : Log Mode → Address → Address → Address → ℤ → Bool

abbrev pub M : Type 0 → Type 0 → Type 0 → Type 0
M S Mode A = Call TreasuryError (Env Mode) (World S Mode) A

-- Before deployment, with whatever the other keys start as.
abbrev pub fresh : {S Mode : Type 0} → S → World S Mode
fresh s = record {
  storage = record {
    storage_version = none;
    admin = none;
    pending_admin = none;
    authorized_markets = none;
    pending_market_contract = none;
    deposits_paused = none;
    token_balance = λ t. none;
    cumulative_fees = λ t. none;
  };
  rest = s;
  log = [];
}
