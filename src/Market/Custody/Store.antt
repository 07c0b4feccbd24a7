-- ===== src/Market/Custody/Store.antt =====
-- The storage accessors that the modules of contracts/market/src call and its storage.rs does not
-- define, and what the theorems assume of them.
use vatix_contract.Prelude.{ℕ, ℤ, Bool, Option, some, List, Outcome, ok, ◌≡◌, ◌≢◌, ◌⊎◌}
use vatix_contract.Market.Types.{Address, ContractError, EmergencyMode, Market, Position}

-- The errors of the module: those of error.rs, and those that are named and not declared there.
pub data Failure : Type 0 where
  declared : ContractError → Failure
  emergency_mode_active reentrant_call position_token_mismatch reconciliation_already_applied :
      Failure

-- A write that may fail answers a `Result`, one that may only panic an `Option`.
pub record MarketStore (S : Type 0) : Type 0 where
  pub get_emergency_mode : S → EmergencyMode
  pub is_deposit_locked : S → Bool
  pub set_deposit_locked : S → Bool → S
  pub get_market : S → ℕ → Outcome Failure (Option Market)
  pub get_position : S → ℕ → Address → Outcome Failure (Option Position)
  pub set_position : S → ℕ → Address → Position → Outcome Failure S
  pub get_collateral_balance : S → Address → ℤ
  pub set_collateral_balance : S → Address → ℤ → S
  pub debit_collateral_balance : S → Address → ℤ → Option S
  pub add_market_participant : S → ℕ → Address → S
  pub get_market_participants : S → ℕ → List Address
  pub get_last_deposit_time : S → ℕ → Address → Option ℕ
  pub set_last_deposit_time : S → ℕ → Address → ℕ → S
  pub get_fee_rate_bps : S → ℤ
  pub is_fee_waived : S → Address → Bool
  pub get_treasury : S → Option Address
  pub get_outcome_token_contract : S → Option Address

-- Positions are a key of their own, read back as written and written by no other accessor, and no
-- write of a position or of a balance changes the treasury. `position_of` is what the storage holds.
pub record IsMarketStore {S : Type 0} (store : MarketStore S) : Type 0 where
  pub position_of : S → ℕ → Address → Option Position
  pub get_position :
      (s : S) (m : ℕ) (u : Address) (p : Option Position)
      → store.get_position s m u ≡ ok p
      → p ≡ position_of s m u
  pub set_position :
      (s s' : S) (m : ℕ) (u : Address) (p : Position)
      → store.set_position s m u p ≡ ok s'
      → position_of s' m u ≡ some p
  pub set_position_other :
      (s s' : S) (m k : ℕ) (u v : Address) (p : Position)
      → store.set_position s m u p ≡ ok s'
      → (k ≢ m) ⊎ (v ≢ u)
      → position_of s' k v ≡ position_of s k v
  pub set_position_treasury :
      (s s' : S) (m : ℕ) (u : Address) (p : Position)
      → store.set_position s m u p ≡ ok s'
      → store.get_treasury s' ≡ store.get_treasury s
  pub debit_treasury :
      (s s' : S) (a : Address) (n : ℤ)
      → store.debit_collateral_balance s a n ≡ some s'
      → store.get_treasury s' ≡ store.get_treasury s
  pub set_deposit_locked :
      (s : S) (b : Bool) (m : ℕ) (u : Address)
      → position_of (store.set_deposit_locked s b) m u ≡ position_of s m u
  pub set_collateral_balance :
      (s : S) (a : Address) (n : ℤ) (m : ℕ) (u : Address)
      → position_of (store.set_collateral_balance s a n) m u ≡ position_of s m u
  pub debit_collateral_balance :
      (s s' : S) (a : Address) (n : ℤ) (m : ℕ) (u : Address)
      → store.debit_collateral_balance s a n ≡ some s'
      → position_of s' m u ≡ position_of s m u
  pub add_market_participant :
      (s : S) (k : ℕ) (a : Address) (m : ℕ) (u : Address)
      → position_of (store.add_market_participant s k a) m u ≡ position_of s m u
  pub set_last_deposit_time :
      (s : S) (k : ℕ) (a : Address) (at : ℕ) (m : ℕ) (u : Address)
      → position_of (store.set_last_deposit_time s k a at) m u ≡ position_of s m u
