-- ===== src/Treasury/History/Ledger.antt =====
-- What the log of the treasury says of a token: the fees that were reported, and the payments.
use vatix_contract.Prelude.{ℕ, ◌+◌, pos_part, [], ◌∷◌, ◌&&◌, ◌==◌, if◌then◌else◌}
use vatix_contract.Treasury.Types.{Address}
use vatix_contract.Treasury.World.{Log, Event, fee_collected, transfer, publish}

module _ {Mode : Type 0} where
  -- The amount of a `FeeCollected` event in the token `t`.
  abbrev pub fee_of : Address → Event Mode → ℕ
  fee_of t (fee_collected market_id token amount balance cumulative) =
      if token == t then pos_part amount else 0
  fee_of t e = 0

  abbrev pub collected : Address → Log Mode → ℕ
  collected t [] = 0
  collected t (transfer token from to amount ∷ l) = collected t l
  collected t (publish e ∷ l) = fee_of t e + collected t l

  -- All payments in the token `t`.
  abbrev pub paid : Address → Log Mode → ℕ
  paid t [] = 0
  paid t (transfer token from to amount ∷ l) =
      (if token == t then pos_part amount else 0) + paid t l
  paid t (publish e ∷ l) = paid t l

  -- The payments in the token `t` to the address `a`.
  abbrev pub paid_to : Address → Address → Log Mode → ℕ
  paid_to a t [] = 0
  paid_to a t (transfer token from to amount ∷ l) =
      (if token == t && to == a then pos_part amount else 0) + paid_to a t l
  paid_to a t (publish e ∷ l) = paid_to a t l
