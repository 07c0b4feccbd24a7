-- ===== src/Resolution/Solvency/Sums.antt =====
-- Sums over the docket, when one candidate is written.
use vatix_contract.Prelude.{
  ℕ, zero, suc, ◌+◌, ◌≤◌, ◌<◌, ◌==◌, Bool-cases, ==_iff, inl, inr, ◌≡◌, ◌≢◌, refl, arith,
}
use vatix_contract.Resolution.Solvency.{sum_to}

pub sum_to-same : (f g : ℕ → ℕ) (n : ℕ) → ((j : ℕ) → j ≤ n → g j ≡ f j) → sum_to g n ≡ sum_to f n
sum_to-same f g zero h = refl
sum_to-same f g (suc n) h =
    omega (arith, h (suc n) (omega arith), sum_to-same f g n (λ j le. h j (omega arith)))

-- Where two functions differ at `k` alone, so do their sums.
pub sum_to-change :
    (f g : ℕ → ℕ) (k n : ℕ)
    → 0 < k
    → k ≤ n
    → ((j : ℕ) → j ≢ k → g j ≡ f j)
    → sum_to g n + f k ≡ sum_to f n + g k
sum_to-change f g k zero pos le h = absurd (omega arith)
sum_to-change f g k (suc n) pos le h = elim (Bool-cases (k == suc n)) [
  | inl same ↦
      let e = (==_iff k (suc n)).0 same in
      rw e (omega (arith, sum_to-same f g n (λ j jn. h j (λ q. omega arith))))
  | inr other ↦
      let ne : suc n ≢ k = ground arith in
      omega (arith, h (suc n) ne, sum_to-change f g k n pos (ground arith) h)
]
