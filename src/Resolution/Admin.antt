-- ===== src/Resolution/Admin.antt =====
-- Configuration, the timelocked changes of addresses, the proposers' collateral, the emergency mode
-- and the pause flag: the remaining entry points of contracts/resolution/src/lib.rs.
use vatix_contract.Prelude.{
  ℕ, ℤ, pos, true, false, Option, [], ◌∷◌, ⊤, ltb, leb_ℤ, checked_add, pure, ask, expect, ok_or,
  fail_if, ◌>>=◌, ◌>>◌,
}
use vatix_contract.Resolution.Types.{
  Address, insufficient_collateral, invalid_collateral, unauthorized, already_initialized,
  invalid_admin, EmergencyMode, normal, ResolutionConfig, PendingAddressChange,
}
use vatix_contract.Resolution.World.{M}
use vatix_contract.Resolution.Storage.{
  set_version, assert_version, has_config, get_config, set_config, get_pending_treasury,
  set_pending_treasury, clear_pending_treasury, get_pending_factory, set_pending_factory,
  clear_pending_factory, get_pending_market_contract, set_pending_market_contract,
  clear_pending_market_contract, get_proposer_collateral, set_proposer_collateral, set_treasury,
  set_emergency_mode as store_emergency_mode, set_paused,
}
use vatix_contract.Resolution.Events.{
  emit_resolution_registered, emit_factory_proposed, emit_factory_set,
  emit_market_contract_proposed, emit_market_contract_set, emit_treasury_proposed,
  emit_treasury_set, emit_resolution_paused, emit_resolution_unpaused, emit_emergency_mode_changed,
  emit_collateral_slashed,
}
use vatix_contract.Resolution.Guards.{
  address_timelock_seconds, add_u64, now, require_auth, require_admin,
  require_emergency_mode_allows, validate_challenge_window, transfer,
}

unfoldable pub initialize : Address → Address → Address → ℕ → M ⊤
initialize admin factory market_contract challenge_window_secs = do
  contract ← ask (λ env. env.executable admin)
  fail_if contract invalid_admin
  require_auth admin
  exists ← has_config
  fail_if exists already_initialized
  validate_challenge_window challenge_window_secs
  set_config (record {
    admin = admin;
    factory = factory;
    market_contract = market_contract;
    challenge_window_secs = challenge_window_secs;
  })
  set_version
  emit_resolution_registered factory market_contract

-- The opening of the administrator's entry points: the signature, the version and the identity.
abbrev pub as_admin : Address → M ResolutionConfig
as_admin admin = do
  require_auth admin
  assert_version
  config ← get_config
  require_admin admin config
  pure config

unfoldable pub set_default_challenge_window : Address → ℕ → M ⊤
set_default_challenge_window admin seconds = do
  config ← as_admin admin
  validate_challenge_window seconds
  set_config (record config { challenge_window_secs = seconds })

-- A change proposed now may be applied once the timelock has passed.
abbrev pub pending_change : Address → M PendingAddressChange
pending_change a = do
  at ← now
  effective_at ← add_u64 at address_timelock_seconds
  pure (record { new_address = a; effective_at = effective_at })

-- The check at the start of the `execute_` entry points.
abbrev pub elapsed : Option PendingAddressChange → M PendingAddressChange
elapsed found = do
  pending ← ok_or found unauthorized
  at ← now
  fail_if (ltb at pending.effective_at) unauthorized
  pure pending

unfoldable pub propose_factory : Address → Address → M ⊤
propose_factory admin factory = do
  as_admin admin
  pending ← pending_change factory
  set_pending_factory pending
  emit_factory_proposed factory pending.effective_at

unfoldable pub execute_factory : M Address
execute_factory = do
  assert_version
  found ← get_pending_factory
  pending ← elapsed found
  config ← get_config
  set_config (record config { factory = pending.new_address })
  clear_pending_factory
  emit_factory_set pending.new_address
  pure pending.new_address

unfoldable pub cancel_factory : Address → M ⊤
cancel_factory admin = do as_admin admin; clear_pending_factory

unfoldable pub propose_market_contract : Address → Address → M ⊤
propose_market_contract admin market_contract = do
  as_admin admin
  pending ← pending_change market_contract
  set_pending_market_contract pending
  emit_market_contract_proposed market_contract pending.effective_at

unfoldable pub execute_market_contract : M Address
execute_market_contract = do
  assert_version
  found ← get_pending_market_contract
  pending ← elapsed found
  config ← get_config
  set_config (record config { market_contract = pending.new_address })
  clear_pending_market_contract
  emit_market_contract_set pending.new_address
  pure pending.new_address

unfoldable pub cancel_market_contract : Address → M ⊤
cancel_market_contract admin = do as_admin admin; clear_pending_market_contract

unfoldable pub set_market_contract : Address → Address → M ⊤
set_market_contract admin market_contract = do
  config ← as_admin admin
  set_config (record config { market_contract = market_contract })
  emit_market_contract_set market_contract

unfoldable pub deposit_collateral : Address → Address → ℤ → M ⊤
deposit_collateral proposer collateral_token amount = do
  require_auth proposer
  assert_version
  require_emergency_mode_allows (normal ∷ [])
  fail_if (leb_ℤ amount (pos 0)) invalid_collateral
  prev ← get_proposer_collateral proposer
  sum ← expect (checked_add prev amount)
  set_proposer_collateral proposer sum
  this ← ask (λ env. env.this)
  transfer collateral_token proposer this amount

unfoldable pub slash_collateral : Address → Address → Address → Address → M ℤ
slash_collateral admin proposer collateral_token recipient = do
  as_admin admin
  amount ← get_proposer_collateral proposer
  fail_if (leb_ℤ amount (pos 0)) insufficient_collateral
  set_proposer_collateral proposer (pos 0)
  emit_collateral_slashed proposer recipient amount
  this ← ask (λ env. env.this)
  transfer collateral_token this recipient amount
  pure amount

unfoldable pub propose_treasury : Address → Address → M ⊤
propose_treasury admin treasury = do
  as_admin admin
  pending ← pending_change treasury
  set_pending_treasury pending
  emit_treasury_proposed treasury pending.effective_at

unfoldable pub execute_treasury : M Address
execute_treasury = do
  assert_version
  found ← get_pending_treasury
  pending ← elapsed found
  set_treasury pending.new_address
  clear_pending_treasury
  emit_treasury_set pending.new_address
  pure pending.new_address

-- The version is checked before the signature here.
unfoldable pub cancel_treasury : Address → M ⊤
cancel_treasury admin = do
  assert_version
  require_auth admin
  config ← get_config
  require_admin admin config
  clear_pending_treasury

unfoldable pub set_emergency_mode : Address → EmergencyMode → M ⊤
set_emergency_mode admin new_mode = do
  as_admin admin
  store_emergency_mode new_mode
  emit_emergency_mode_changed new_mode admin

unfoldable pub pause : Address → M ⊤
pause admin = do as_admin admin; set_paused true; emit_resolution_paused admin

unfoldable pub unpause : Address → M ⊤
unpause admin = do as_admin admin; set_paused false; emit_resolution_unpaused admin
