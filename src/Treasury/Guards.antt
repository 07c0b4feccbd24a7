-- ===== src/Treasury/Guards.antt =====
-- The guards that the entry points of contracts/treasury/src/lib.rs share, and the call of a token.
use vatix_contract.Prelude.{
  ℕ, ◌+◌, ◌^◌, ℤ, Bool, false, Option, none, some, List, [], ◌∷◌, ◌||◌, not, ⊤, ltb, ◌==◌,
  if◌then◌else◌, ask, gets, pure, expect, ok_or, propagate, fail_if, trap_unless, modify, Outcome,
  ◌>>=◌, ◌>>◌,
}
use vatix_contract.Treasury.Types.{
  Address, TreasuryError, not_initialized, contract_paused, emergency_mode_active, unauthorized,
  PendingAddressChange,
}
use vatix_contract.Treasury.World.{Storage, Accessors, Log, transfer as transferred, M}
use vatix_contract.Treasury.Storage.{has_admin, get_admin}
use vatix_contract.Treasury.Events.{log_effect}

abbrev pub address_timelock_seconds : ℕ
address_timelock_seconds = 172800

module _ {S Mode : Type 0} where
  abbrev pub now : M S Mode ℕ
  now = ask (λ env. env.timestamp)

  -- A u64 sum, which panics past 2^64 - 1.
  abbrev pub add_u64 : ℕ → ℕ → M S Mode ℕ
  add_u64 a b = expect (if ltb (a + b) (2 ^ 64) then some (a + b) else none)

  abbrev pub require_auth : Address → M S Mode ⊤
  require_auth a = do signed ← ask (λ env. env.authorized a); trap_unless signed

  -- The opening of every entry point but `initialize` and the `execute_` ones.
  abbrev pub require_initialized : Address → M S Mode ⊤
  require_initialized caller = do
    require_auth caller
    initialized ← has_admin
    fail_if (not initialized) not_initialized

  -- Only the stored administrator passes.
  abbrev pub require_admin : Address → M S Mode Address
  require_admin caller = do
    admin ← get_admin
    fail_if (not (caller == admin)) unauthorized
    pure admin

  abbrev pub as_admin : Address → M S Mode Address
  as_admin caller = do require_initialized caller; require_admin caller

  abbrev pub log_so_far : M S Mode (Log Mode)
  log_so_far = gets (λ w. w.log)

  -- A transfer that does not return traps.
  abbrev pub transfer : Address → Address → Address → ℤ → M S Mode ⊤
  transfer token from to amount = do
    returns ← ask (λ env. env.transfer_returns)
    log ← log_so_far
    trap_unless (returns log token from to amount)
    log_effect (transferred token from to amount)

  -- A read and a write by the accessors that are not defined.
  abbrev pub peek : {A : Type 0} → (S → A) → M S Mode A
  peek f = gets (λ w. f w.rest)

  abbrev pub answer : {A : Type 0} → (Storage → S → Outcome TreasuryError A) → M S Mode A
  answer f = do r ← gets (λ w. f w.storage w.rest); propagate r

  abbrev pub poke : (S → S) → M S Mode ⊤
  poke f = modify (λ w. record w { rest = f w.rest })

  module _ (access : Accessors S Mode) where
    abbrev pub allows : List Mode → Mode → Bool
    allows [] current = false
    allows (m ∷ ms) current = access.same_mode m current || allows ms current

    abbrev pub require_emergency_mode_allows : List Mode → M S Mode ⊤
    require_emergency_mode_allows allowed_modes = do
      current ← peek access.get_emergency_mode
      fail_if (not (allows allowed_modes current)) emergency_mode_active

    -- The pause flag and the mode, as the three entry points that move fees check them.
    abbrev pub require_open : M S Mode ⊤
    require_open = do
      paused ← peek access.is_paused
      fail_if paused contract_paused
      require_emergency_mode_allows
          (access.normal ∷ access.trading_halted ∷ access.settle_only ∷ [])

  abbrev pub pending_change : Address → M S Mode PendingAddressChange
  pending_change a = do
    at ← now
    effective_at ← add_u64 at address_timelock_seconds
    pure (record { new_address = a; effective_at = effective_at })

  -- The check at the start of `execute_admin` and `execute_market_contract`.
  abbrev pub elapsed : Option PendingAddressChange → M S Mode PendingAddressChange
  elapsed found = do
    pending ← ok_or found unauthorized
    at ← now
    fail_if (ltb at pending.effective_at) unauthorized
    pure pending
