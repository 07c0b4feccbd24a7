-- ===== src/Treasury/Distribution/Shares.antt =====
-- The arithmetic of the revenue shares: what is rounded away (contracts/treasury/src/lib.rs,
-- `distribute_fees`).
use vatix_contract.Prelude.{
  ℕ, zero, suc, ◌+◌, ◌*◌, ◌/◌, ◌≤◌, ◌<◌, ℤ, pos, ◌+ℤ◌, ltb, List, [], ◌∷◌, some, ◌≡◌, ap, length,
  if◌then◌else◌, arith,
}
use vatix_contract.Treasury.Types.{Address, Share}
use vatix_contract.Treasury.Distribution.{sum_shares}

-- The share of a balance, rounded down.
abbrev pub portion : ℕ → ℕ → ℕ
portion balance share_bps = balance * share_bps / 10000

abbrev pub portions : ℕ → List Share → ℕ
portions b [] = 0
portions b (x ∷ xs) = portion b x.1 + portions b xs

abbrev pub weight : List Share → ℕ
weight [] = 0
weight (x ∷ xs) = x.1 + weight xs

-- The payouts that are not zero, in order.
abbrev pub payable : ℕ → List Share → List (Address × ℤ)
payable b [] = []
payable b (x ∷ xs) =
    if ltb 0 (portion b x.1) then (x.0, pos (portion b x.1)) ∷ payable b xs else payable b xs

pub mul-add : (b s t : ℕ) → b * (s + t) ≡ b * s + b * t
mul-add zero s t = omega arith
mul-add (suc b) s t = omega (arith, mul-add b s t)

portions-bounds :
    (b : ℕ) (xs : List Share)
    → (portions b xs * 10000 ≤ b * weight xs)
      × (b * weight xs + length xs ≤ (portions b xs + length xs) * 10000)
portions-bounds b [] = (omega arith, omega arith)
portions-bounds b (x ∷ xs) =
    let (low, high) = portions-bounds b xs in
    let split = mul-add b x.1 (weight xs) in (omega (arith, low, split), omega (arith, high, split))

pub portions-within : (b : ℕ) (xs : List Share) → weight xs ≡ 10000 → portions b xs ≤ b
portions-within b xs full =
    let scaled : b * weight xs ≡ b * 10000 = ap (λ n. b * n) full in
    omega (arith, portions-bounds b xs, scaled)

-- Shares of ten thousand ten-thousandths together leave less of a balance than there are stakeholders,
-- and never pay out more than it.
pub portions-dust :
    (b : ℕ) (xs : List Share)
    → weight xs ≡ 10000
    → (portions b xs ≤ b) × (b < portions b xs + length xs)
portions-dust b xs full =
    let scaled : b * weight xs ≡ b * 10000 = ap (λ n. b * n) full in
    let some_one = nonempty xs full in omega (arith, portions-bounds b xs, scaled, some_one)
  where
    nonempty : (ys : List Share) → weight ys ≡ 10000 → 0 < length ys
    nonempty [] h = absurd (omega arith)
    nonempty (y ∷ ys) h = omega arith

pub sum_shares-weight :
    (xs : List Share) (d : ℕ) (t : ℤ) → sum_shares xs (pos d) ≡ some t → t ≡ pos (d + weight xs)
unfolding sum_shares ◌+ℤ◌
sum_shares-weight [] d t h = ground arith
sum_shares-weight (x ∷ xs) d t h = ground (arith, sum_shares-weight xs (d + x.1) t)
