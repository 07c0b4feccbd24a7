-- ===== src/Market/Validation/Fees.antt =====
-- Amounts and fees that pass the validators of contracts/market/src/validation.rs.
use vatix_contract.Prelude.{
  ℕ, zero, suc, refl, ◌*◌, ◌/◌, ◌≤◌, ◌<◌, ℤ, pos, negsuc, some, ◌≡◌, ◌+ℤ◌, ◌*ℤ◌, ◌/ℤ◌, ◌≤ℤ◌,
  checked_add, arith,
}
use vatix_contract.Market.Validation.{
  done, validate_collateral_amount, validate_shares, calculate_fee,
}

-- Two amounts that pass `validate_collateral_amount` are positive, and their sum is an i128.
pub validate_collateral_amount-sum :
    (a b : ℤ)
    → validate_collateral_amount a ≡ done tt
    → validate_collateral_amount b ≡ done tt
    → (pos 1 ≤ℤ a) × (pos 1 ≤ℤ b) × (checked_add a b ≡ some (a +ℤ b))
unfolding validate_collateral_amount ◌+ℤ◌
validate_collateral_amount-sum a b h k = (ground arith, ground arith, ground arith)

-- Shares that pass `validate_shares` are not negative, one of them is positive, and their sum is an
-- i128.
pub validate_shares-sum :
    (y n : ℤ)
    → validate_shares y n ≡ done tt
    → (pos 0 ≤ℤ y) × (pos 0 ≤ℤ n) × (pos 1 ≤ℤ y +ℤ n) × (checked_add y n ≡ some (y +ℤ n))
unfolding validate_shares ◌+ℤ◌
validate_shares-sum y n h = (ground arith, ground arith, ground arith, ground arith)

product_le : (a r : ℕ) → r ≤ 10000 → a * r ≤ a * 10000
product_le zero r h = omega arith
product_le (suc a) r h = omega (arith, product_le a r h)

quotient_le : (a r : ℕ) → r ≤ 10000 → a * r / 10000 ≤ a
quotient_le a r h = omega (arith, product_le a r h)

-- A fee that `calculate_fee` answers is the part of the amount that the rate names, in ten-thousandths
-- and rounded down, and no more than the amount; the amount was positive and the rate at most 10000.
pub calculate_fee-exact :
    (amount rate fee : ℤ)
    → calculate_fee amount rate ≡ done fee
    → (a r n : ℕ) × (amount ≡ pos a)
      × (rate ≡ pos r)
      × (fee ≡ pos n)
      × (0 < a)
      × (r ≤ 10000)
      × (n ≡ a * r / 10000)
      × (n ≤ a)
unfolding calculate_fee ◌*ℤ◌ ◌/ℤ◌
calculate_fee-exact (pos a) (pos r) fee h = (
  a,
  r,
  a * r / 10000,
  refl,
  refl,
  ground arith,
  ground arith,
  ground arith,
  refl,
  quotient_le a r (ground arith),
)
calculate_fee-exact (pos a) (negsuc r) fee h = absurd (ground arith)
calculate_fee-exact (negsuc a) r fee h = absurd (ground arith)
