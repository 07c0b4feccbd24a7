-- ===== src/Market/Positions/Collateral.antt =====
-- The bounds of the locked collateral (`calculate_locked_collateral` of
-- contracts/market/src/positions.rs).
use vatix_contract.Prelude.{
  ℕ, zero, suc, ◌+◌, ◌-◌, ◌*◌, ◌/◌, ◌≤◌, pos, some, ◌≡◌, ◌-ℤ◌, ◌*ℤ◌, ◌/ℤ◌, leb, if◌then◌else◌,
  i128_max, arith,
}
use vatix_contract.Market.Positions.{scale_by_bps, calculate_locked_collateral}

product_le : (a r : ℕ) → r ≤ 10000 → a * r ≤ a * 10000
product_le zero r h = omega arith
product_le (suc a) r h = omega (arith, product_le a r h)

-- The scaled part of an amount, capped where the product is no i128.
abbrev pub capped : ℕ → ℕ → ℕ
capped a r = if leb (a * r) i128_max then a * r / 10000 else i128_max / 10000

scale_by_bps_lem : (a r : ℕ) → scale_by_bps (pos a) (pos r) ≡ pos (capped a r)
unfolding scale_by_bps ◌*ℤ◌ ◌/ℤ◌
scale_by_bps_lem a r = ground arith

-- For share counts y and n within i128 and a price of p ten-thousandths, the lock is the net count
-- on the heavier side times that side's price, rounded down and capped where the product is no i128;
-- it is 0 for a hedged position and never more than the net count.
pub calculate_locked_collateral_lem :
    (y n p : ℕ)
    → y ≤ i128_max
    → n ≤ i128_max
    → p ≤ 10000
    → (calculate_locked_collateral (pos y) (pos n) (pos p)
        ≡ some (pos (if leb n y then capped (y - n) p else capped (n - y) (10000 - p))))
      × ((if leb n y then capped (y - n) p else capped (n - y) (10000 - p)) ≤ (y - n) + (n - y))
unfolding calculate_locked_collateral ◌-ℤ◌
calculate_locked_collateral_lem y n p hy hn hp = (
  ground (arith, scale_by_bps_lem (y - n) p, scale_by_bps_lem (n - y) (10000 - p)),
  ground (arith, product_le (y - n) p hp, product_le (n - y) (10000 - p)),
)
