-- ===== src/Market/Positions/History.antt =====
-- Histories of transfers and merges, each rolled back by the host unless it returns
-- (`transfer_position` and `merge_positions` of contracts/market/src/positions.rs).
pub mod Replay
use vatix_contract.Prelude.{
  ℕ, ℤ, ◌+ℤ◌, ◌==◌, ◌||◌, Bool, true, Option-cases, inl, inr, List, [], ◌∷◌, ⊤, Outcome, ok, err,
  trap, ◌≡◌, ◌∙◌, refl, if◌then◌else◌, arith,
}
use vatix_contract.Market.Types.{Address, Position}
use vatix_contract.Market.Validation.{Result, done, fail, validate_market_price}
use vatix_contract.Market.Positions.{
  PositionStore, IsPositionStore, PositionError, Ledger, M, stored, duplicate_request, unauthorized,
  invalid_market_price, calculate_locked_collateral, transfer_position, merge_positions,
}

pub data Request : Type 0 where
  transfer :
      (market_id : ℕ) (from to caller : Address) (yes_shares no_shares market_price : ℤ)
      (request_id : ℕ)
      → Request
  merge :
      (market_id : ℕ) (owner primary other caller : Address) (market_price : ℤ) (request_id : ℕ)
      → Request

-- Whose identifiers a request uses, which of them, who calls, and the price it names.
abbrev pub owner_of : Request → Address
owner_of (transfer m from to caller y n price id) = from
owner_of (merge m owner primary other caller price id) = owner

abbrev pub id_of : Request → ℕ
id_of (transfer m from to caller y n price id) = id
id_of (merge m owner primary other caller price id) = id

abbrev pub caller_of : Request → Address
caller_of (transfer m from to caller y n price id) = caller
caller_of (merge m owner primary other caller price id) = caller

abbrev pub price_of : Request → ℤ
price_of (transfer m from to caller y n price id) = price
price_of (merge m owner primary other caller price id) = price

module _ {S : Type 0} (store : PositionStore S) where
  unfoldable pub exec : Request → M S ⊤
  exec (transfer m from to caller y n price id) =
      transfer_position store m from to caller y n price id
  exec (merge m owner primary other caller price id) =
      merge_positions store m owner primary other caller price id

  abbrev pub commit : Ledger S → Outcome PositionError (⊤ × Ledger S) → Ledger S
  commit w (ok (u, w')) = w'
  commit w (err e) = w
  commit w trap = w

  -- The ledger after a history, which is read from the left.
  unfoldable pub run : List Request → Ledger S → Ledger S
  run [] w = w
  run (q ∷ qs) w = run qs (commit w (exec q tt w))
