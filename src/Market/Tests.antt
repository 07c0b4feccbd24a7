-- ===== src/Market/Tests.antt =====
-- A storage of positions, a few positions in it, and the applications of the market's theorems.
use vatix_contract.Prelude.{
  ℕ, ℤ, pos, ◌+ℤ◌, ◌-ℤ◌, ◌*ℤ◌, ◌/ℤ◌, ◌≤ℤ◌, ◌*◌, ◌/◌, ◌≤◌, ◌<◌, Bool, true, false, ◌&&◌, ◌==◌,
  Option, none, some, [], ◌∷◌, ⊤, Outcome, ok, err, trap, if◌then◌else◌, ◌≡◌, ◌≢◌, refl,
  checked_add, arith,
}
use vatix_contract.Market.Types.{Address, Bytes, Position}
use vatix_contract.Market.Validation.{
  done, validate_collateral_amount, validate_shares, calculate_fee, parse_market_id,
}
use vatix_contract.Market.Validation.Fees.{
  validate_collateral_amount-sum, validate_shares-sum, calculate_fee-exact,
}
use vatix_contract.Market.Validation.Identifiers.{parse_market_id-market_id_to_string}
use vatix_contract.Resolution.Guards.{market_id_to_string}
use vatix_contract.Market.Positions.{
  PositionStore, IsPositionStore, KeepsWrites, Ledger, PositionError, duplicate_request,
  scale_by_bps, calculate_locked_collateral, transfer_position, merge_positions,
}
use vatix_contract.Market.Positions.Collateral.{calculate_locked_collateral_lem}
use vatix_contract.Market.Positions.Transfer.{
  position_of, transfer_position-moves, transfer_position_self,
}
use vatix_contract.Market.Positions.History.{transfer, merge, exec, run}
use vatix_contract.Market.Positions.History.Replay.{exec-replay}
use vatix_contract.Market.Positions.Merge.{emptied, merge_positions-takes, merge_positions_self}

-- The entries of a storage, as functions.
record Slots : Type 0 where
  position : ℕ → Address → Option Position
  operator : Address → Address → Bool
  consumed : Address → ℕ → Bool

abbrev slots : PositionStore Slots
slots = record {
  get_position = λ s m u. s.position m u;
  set_position = λ s m u p.
      some (record s { position = λ k v. if k == m && v == u then some p else s.position k v });
  is_operator = λ s owner u. s.operator owner u;
  is_request_consumed = λ s u id. s.consumed u id;
  mark_request_consumed =
      λ s u id. record s { consumed = λ v j. if v == u && j == id then true else s.consumed v j };
}

slots-IsPositionStore : IsPositionStore slots
slots-IsPositionStore = record {
  set_same = λ s s' m u p h. ground (arith, h);
  set_other = λ s s' m k u v p h differ. ground (arith, h);
  set_consumed = λ s s' m u v p id h. ground (arith, h);
  mark_consumed = λ s u id. ground arith;
  mark_kept = λ s u v id k h. ground (arith, h);
  mark_position = λ s u id m v. refl;
}

slots-KeepsWrites : KeepsWrites slots
slots-KeepsWrites = record { laws = slots-IsPositionStore; succeeds = λ s m u p. (_, refl) }

abbrev held : Address → ℤ → ℤ → Position
held u y n = record {
  user = u;
  yes_shares = y;
  no_shares = n;
  locked_collateral = pos 0;
  total_deposited = pos 50;
  market_id = 1;
  is_settled = false;
}

-- Users 1 and 2 hold shares in market 1.
abbrev ledger : Ledger Slots
ledger = record {
  state = record {
    position = λ m u.
        if u == 1
        then some (held 1 (pos 100) (pos 20))
        else if u == 2
        then some (held 2 (pos 30) (pos 0))
        else none;
    operator = λ o u. false;
    consumed = λ u id. false;
  };
  updated = [];
}

abbrev landed : Outcome PositionError (⊤ × Ledger Slots) → Ledger Slots
landed (ok (u, w)) = w
landed (err e) = ledger
landed trap = ledger

abbrev moved : Ledger Slots
moved = landed (transfer_position slots 1 1 2 1 (pos 40) (pos 5) (pos 6000) 9 tt ledger)

transfer-returns :
    transfer_position slots 1 1 2 1 (pos 40) (pos 5) (pos 6000) 9 tt ledger ≡ ok (tt, moved)
unfolding transfer_position calculate_locked_collateral scale_by_bps ◌+ℤ◌ ◌-ℤ◌ ◌*ℤ◌ ◌/ℤ◌
transfer-returns = refl

exec-returns :
    exec slots (transfer 1 1 2 1 (pos 40) (pos 5) (pos 6000) 9) tt ledger ≡ ok (tt, moved)
unfolding exec
exec-returns = transfer-returns

abbrev doubled : Ledger Slots
doubled = landed (transfer_position slots 1 1 1 1 (pos 40) (pos 5) (pos 6000) 9 tt ledger)

self-returns :
    transfer_position slots 1 1 1 1 (pos 40) (pos 5) (pos 6000) 9 tt ledger ≡ ok (tt, doubled)
unfolding transfer_position calculate_locked_collateral scale_by_bps ◌+ℤ◌ ◌-ℤ◌ ◌*ℤ◌ ◌/ℤ◌
self-returns = refl

abbrev merged : Ledger Slots
merged = landed (merge_positions slots 1 1 1 1 1 (pos 6000) 9 tt ledger)

merge-returns : merge_positions slots 1 1 1 1 1 (pos 6000) 9 tt ledger ≡ ok (tt, merged)
unfolding merge_positions calculate_locked_collateral scale_by_bps ◌+ℤ◌ ◌-ℤ◌ ◌*ℤ◌ ◌/ℤ◌
merge-returns = refl

sum-fits : checked_add (pos 100) (pos 30) ≡ some (pos 130)
unfolding ◌+ℤ◌
sum-fits = refl

no_sum-fits : checked_add (pos 20) (pos 0) ≡ some (pos 20)
unfolding ◌+ℤ◌
no_sum-fits = refl

total-fits : checked_add (pos 50) (pos 50) ≡ some (pos 100)
unfolding ◌+ℤ◌
total-fits = refl

new-lock : calculate_locked_collateral (pos 130) (pos 20) (pos 6000) ≡ some (pos 66)
unfolding calculate_locked_collateral scale_by_bps ◌+ℤ◌ ◌-ℤ◌ ◌*ℤ◌ ◌/ℤ◌
new-lock = refl

fee-returns : calculate_fee (pos 10000) (pos 25) ≡ done (pos 25)
unfolding calculate_fee ◌*ℤ◌ ◌/ℤ◌
fee-returns = refl

amount-passes : validate_collateral_amount (pos 7) ≡ done tt
unfolding validate_collateral_amount
amount-passes = refl

shares-pass : validate_shares (pos 0) (pos 3) ≡ done tt
unfolding validate_shares
shares-pass = refl

-- The applications.
parse_market_id-market_id_to_string_example :
    (id : Bytes) × (market_id_to_string 42 ≡ some id) × (parse_market_id id ≡ done 42)
parse_market_id-market_id_to_string_example = parse_market_id-market_id_to_string 42 (omega arith)

validate_collateral_amount-sum_example :
    (pos 1 ≤ℤ pos 7) × (pos 1 ≤ℤ pos 7) × (checked_add (pos 7) (pos 7) ≡ some (pos 7 +ℤ pos 7))
validate_collateral_amount-sum_example =
    validate_collateral_amount-sum (pos 7) (pos 7) amount-passes amount-passes

validate_shares-sum_example :
    (pos 0 ≤ℤ pos 0)
    × (pos 0 ≤ℤ pos 3)
    × (pos 1 ≤ℤ pos 0 +ℤ pos 3)
    × (checked_add (pos 0) (pos 3) ≡ some (pos 0 +ℤ pos 3))
validate_shares-sum_example = validate_shares-sum (pos 0) (pos 3) shares-pass

calculate_fee-exact_example :
    (a r n : ℕ) × (pos 10000 ≡ pos a)
    × (pos 25 ≡ pos r)
    × (pos 25 ≡ pos n)
    × (0 < a)
    × (r ≤ 10000)
    × (n ≡ a * r / 10000)
    × (n ≤ a)
calculate_fee-exact_example = calculate_fee-exact (pos 10000) (pos 25) (pos 25) fee-returns

calculate_locked_collateral_lem_example :
    (calculate_locked_collateral (pos 100) (pos 20) (pos 6000) ≡ some (pos 48)) × (48 ≤ 80)
calculate_locked_collateral_lem_example =
    calculate_locked_collateral_lem 100 20 6000 (omega arith) (omega arith) (omega arith)

transfer_position-moves_example :
    (pos 0 ≤ℤ (position_of slots moved 1 1).yes_shares)
    × (pos 0 ≤ℤ (position_of slots moved 1 1).no_shares)
    × ((position_of slots moved 1 1).yes_shares ≡ pos 100 -ℤ pos 40)
    × ((position_of slots moved 1 1).no_shares ≡ pos 20 -ℤ pos 5)
    × ((position_of slots moved 1 2).yes_shares ≡ pos 30 +ℤ pos 40)
    × ((position_of slots moved 1 2).no_shares ≡ pos 0 +ℤ pos 5)
    × ((v : Address) → v ≢ 1 → v ≢ 2 → position_of slots moved 1 v ≡ position_of slots ledger 1 v)
transfer_position-moves_example =
    transfer_position-moves slots slots-KeepsWrites 1 1 2 1 (pos 40) (pos 5) (pos 6000) 9 ledger
      moved (omega arith) transfer-returns

transfer_position_self_example :
    ((position_of slots doubled 1 1).yes_shares ≡ pos 100 +ℤ pos 40)
    × ((position_of slots doubled 1 1).no_shares ≡ pos 20 +ℤ pos 5)
transfer_position_self_example =
    transfer_position_self slots slots-KeepsWrites 1 1 1 (pos 40) (pos 5) (pos 6000) 9 ledger
      doubled self-returns

-- The identifier 9 that the transfer used, after another transfer and a merge.
exec-replay_example :
    exec slots (transfer 1 1 3 1 (pos 1) (pos 1) (pos 6000) 9) tt (
      run slots
        (transfer 1 1 2 1 (pos 1) (pos 1) (pos 6000) 10 ∷ merge 1 1 1 2 1 (pos 6000) 11 ∷ [])
        moved)
    ≡ err duplicate_request
exec-replay_example =
    exec-replay slots slots-IsPositionStore (transfer 1 1 2 1 (pos 40) (pos 5) (pos 6000) 9) ledger
      moved (transfer 1 1 2 1 (pos 1) (pos 1) (pos 6000) 10 ∷ merge 1 1 1 2 1 (pos 6000) 11 ∷ [])
      (transfer 1 1 3 1 (pos 1) (pos 1) (pos 6000) 9) exec-returns refl refl

merge_positions-takes_example :
    (w' : Ledger Slots) × (merge_positions slots 1 1 1 2 1 (pos 6000) 9 tt ledger ≡ ok (tt, w'))
    × (w'.state.position 1 1
        ≡ some (record (held 1 (pos 130) (pos 20)) {
          total_deposited = pos 100;
          locked_collateral = pos 66;
        }))
    × (w'.state.position 1 2 ≡ some (emptied (held 2 (pos 30) (pos 0))))
merge_positions-takes_example =
    merge_positions-takes slots slots-KeepsWrites 1 1 2 (pos 6000) 9 (held 1 (pos 100) (pos 20))
      (held 2 (pos 30) (pos 0)) (pos 130) (pos 20) (pos 100) (pos 66) ledger (omega arith) refl refl
      refl refl refl refl sum-fits no_sum-fits total-fits new-lock

merge_positions_self_example :
    merged.state.position 1 1 ≡ some (emptied (held 1 (pos 100) (pos 20)))
merge_positions_self_example =
    merge_positions_self slots slots-KeepsWrites 1 1 1 1 (pos 6000) 9 (held 1 (pos 100) (pos 20))
      ledger merged refl merge-returns
