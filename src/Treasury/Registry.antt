-- ===== src/Treasury/Registry.antt =====
-- The registry of markets that may report fees: `add_market`, `remove_market`, the timelocked
-- `propose_market_contract` and its kin, and `set_market_contract` of contracts/treasury/src/lib.rs.
pub mod Membership
use vatix_contract.Prelude.{
  ℕ, Bool, List, [], ◌∷◌, ◌++◌, ⊤, not, ◌==◌, if◌then◌else◌, contains, pure, when, ◌>>=◌, ◌>>◌,
}
use vatix_contract.Treasury.Types.{Address}
use vatix_contract.Treasury.World.{M}
use vatix_contract.Treasury.Storage.{
  get_authorized_markets, set_authorized_markets, get_pending_market_contract,
  set_pending_market_contract, clear_pending_market_contract,
}
use vatix_contract.Treasury.Events.{
  emit_market_added, emit_market_removed, emit_market_contract_proposed, emit_market_contract_set,
}
use vatix_contract.Treasury.Guards.{as_admin, pending_change, elapsed}

-- The loop of `remove_market`, which copies every other market.
abbrev pub without : Address → List Address → List Address
without a [] = []
without a (m ∷ ms) = if m == a then without a ms else m ∷ without a ms

module _ {S Mode : Type 0} where
  unfoldable pub add_market : Address → Address → M S Mode ⊤
  add_market caller market_contract = do
    as_admin caller
    markets ← get_authorized_markets
    when (not (contains markets market_contract)) (do
      set_authorized_markets (markets ++ market_contract ∷ [])
      emit_market_added market_contract)

  unfoldable pub remove_market : Address → Address → M S Mode ⊤
  remove_market caller market_contract = do
    as_admin caller
    markets ← get_authorized_markets
    when (contains markets market_contract) (do
      set_authorized_markets (without market_contract markets)
      emit_market_removed market_contract)

  unfoldable pub propose_market_contract : Address → Address → M S Mode ⊤
  propose_market_contract caller new_market_contract = do
    as_admin caller
    pending ← pending_change new_market_contract
    set_pending_market_contract pending
    emit_market_contract_proposed new_market_contract pending.effective_at

  unfoldable pub execute_market_contract : M S Mode Address
  execute_market_contract = do
    found ← get_pending_market_contract
    pending ← elapsed found
    markets ← get_authorized_markets
    when (not (contains markets pending.new_address))
        (set_authorized_markets (markets ++ pending.new_address ∷ []))
    clear_pending_market_contract
    emit_market_contract_set pending.new_address
    pure pending.new_address

  unfoldable pub cancel_market_contract : Address → M S Mode ⊤
  cancel_market_contract caller = do as_admin caller; clear_pending_market_contract

  unfoldable pub set_market_contract : Address → Address → M S Mode ⊤
  set_market_contract caller market_contract = do
    as_admin caller
    markets ← get_authorized_markets
    when (not (contains markets market_contract))
        (set_authorized_markets (markets ++ market_contract ∷ []))
    emit_market_contract_set market_contract
