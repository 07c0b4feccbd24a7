-- ===== src/Treasury/Admin.antt =====
-- The deployment, the administrator, the pause flag and the emergency mode: the remaining entry points
-- of contracts/treasury/src/lib.rs.
use vatix_contract.Prelude.{true, false, [], ◌∷◌, ⊤, ask, pure, fail_if, ◌>>=◌, ◌>>◌}
use vatix_contract.Treasury.Types.{Address, invalid_admin, already_initialized}
use vatix_contract.Treasury.World.{Accessors, M}
use vatix_contract.Treasury.Storage.{
  set_version, has_admin, get_admin, set_admin, get_pending_admin, set_pending_admin,
  clear_pending_admin, set_authorized_markets,
}
use vatix_contract.Treasury.Events.{
  emit_treasury_initialized, emit_admin_transferred, emit_admin_transfer_proposed,
  emit_treasury_paused, emit_treasury_unpaused, emit_emergency_mode_changed,
}
use vatix_contract.Treasury.Guards.{require_auth, as_admin, pending_change, elapsed, poke}

module _ {S Mode : Type 0} where
  unfoldable pub initialize : Address → Address → M S Mode ⊤
  initialize admin market_contract = do
    contract ← ask (λ env. env.executable admin)
    fail_if contract invalid_admin
    require_auth admin
    exists ← has_admin
    fail_if exists already_initialized
    set_admin admin
    set_authorized_markets (market_contract ∷ [])
    set_version
    emit_treasury_initialized admin market_contract

  unfoldable pub propose_admin : Address → Address → M S Mode ⊤
  propose_admin caller new_admin = do
    admin ← as_admin caller
    pending ← pending_change new_admin
    set_pending_admin pending
    emit_admin_transfer_proposed admin new_admin pending.effective_at

  unfoldable pub execute_admin : M S Mode Address
  execute_admin = do
    found ← get_pending_admin
    pending ← elapsed found
    current_admin ← get_admin
    set_admin pending.new_address
    clear_pending_admin
    emit_admin_transferred current_admin pending.new_address
    pure pending.new_address

  unfoldable pub cancel_admin : Address → M S Mode ⊤
  cancel_admin caller = do as_admin caller; clear_pending_admin

  unfoldable pub transfer_admin : Address → Address → M S Mode ⊤
  transfer_admin caller new_admin = do
    as_admin caller
    set_admin new_admin
    emit_admin_transferred caller new_admin

module _ {S Mode : Type 0} (access : Accessors S Mode) where
  unfoldable pub pause : Address → M S Mode ⊤
  pause caller = do
    as_admin caller
    poke (λ s. access.set_paused s true)
    emit_treasury_paused caller

  unfoldable pub unpause : Address → M S Mode ⊤
  unpause caller = do
    as_admin caller
    poke (λ s. access.set_paused s false)
    emit_treasury_unpaused caller

  unfoldable pub set_emergency_mode : Address → Mode → M S Mode ⊤
  set_emergency_mode caller new_mode = do
    as_admin caller
    poke (λ s. access.set_emergency_mode s new_mode)
    emit_emergency_mode_changed new_mode caller
