-- ===== src/Treasury/History/Custody.antt =====
-- What the treasury has been reported, paid and holds, after every history
-- (contracts/treasury/src/lib.rs).
use vatix_contract.Prelude.{
  ℕ, ◌+◌, ◌-◌, ◌≤◌, ◌<◌, ◌≡◌, ◌⊎◌, ℤ, pos, negsuc, inl, inr, ok, List, ◌==◌, Bool-cases, leb,
  if◌then◌else◌, ◌+ℤ◌, ◌-ℤ◌, i128_max, arith,
}
use vatix_contract.Treasury.Types.{Address, Share}
use vatix_contract.Treasury.World.{Storage, Accessors, World, Env, Log}
use vatix_contract.Treasury.Storage.{balance_of, cumulative_of}
use vatix_contract.Treasury.Fees
use vatix_contract.Treasury.Fees.{capped_add}
use vatix_contract.Treasury.Fees.Collection.{Collected}
use vatix_contract.Treasury.Distribution.Shares.{portions}
use vatix_contract.Treasury.Distribution.Payments.{Distributes}
use vatix_contract.Treasury.History.Ledger.{collected, paid}

-- An amount as an i128 holds it.
abbrev pub capped : ℕ → ℕ
capped n = if leb n i128_max then n else i128_max

capped_add-pos : (a b : ℕ) → capped_add (pos a) (pos b) ≡ pos (capped (a + b))
unfolding ◌+ℤ◌
capped_add-pos a b = ground arith

-- The books of one token: the balance covers no more than what was reported and not paid, and exactly
-- that unless the reports are past the range of i128.
pub record IsKept {Mode : Type 0} (t : Address) (s : Storage) (l : Log Mode) : Type 0 where
  pub balance : ℕ
  pub held : balance_of s t ≡ pos balance
  pub covered : paid t l + balance ≤ collected t l
  pub exact : (paid t l + balance ≡ collected t l) ⊎ (i128_max < collected t l)
  pub counted : cumulative_of s t ≡ pos (capped (collected t l))

-- A call that moved nothing of the token.
pub unmoved-IsKept :
    {Mode : Type 0} (t : Address) (s s' : Storage) (l l' : Log Mode)
    → balance_of s' t ≡ balance_of s t
    → cumulative_of s' t ≡ cumulative_of s t
    → paid t l' ≡ paid t l
    → collected t l' ≡ collected t l
    → IsKept t s l
    → IsKept t s' l'
unmoved-IsKept t s s' l l' b c p r k = record {
  balance = k.balance;
  held = rw b k.held;
  covered = rw (p, r) k.covered;
  exact = rw (p, r) k.exact;
  counted = rw (c, r) k.counted;
}

module _ {S Mode : Type 0} (access : Accessors S Mode) (t : Address) where
  -- A fee of `n` in the token itself.
  credited-IsKept :
      (n : ℕ) (s' : Storage) (l' : Log Mode) (s : Storage) (l : Log Mode)
      → balance_of s' t ≡ capped_add (balance_of s t) (pos n)
      → cumulative_of s' t ≡ capped_add (cumulative_of s t) (pos n)
      → paid t l' ≡ paid t l
      → collected t l' ≡ n + collected t l
      → IsKept t s l
      → IsKept t s' l'
  credited-IsKept n s' l' s l b c p r k =
      let sum = capped_add-pos k.balance n in
      let count = capped_add-pos (capped (collected t l)) n in
      record {
        balance = capped (k.balance + n);
        held = ground (arith, sum, b, k.held);
        covered = ground (arith, p, r, k.covered);
        exact = ground (arith, p, r, k.covered, k.exact);
        counted = ground (arith, c, count, r, k.counted);
      }

  pub collect_fee-IsKept :
      (c token : Address) (m : ℕ) (n : ℤ) (env : Env Mode) (w w' : World S Mode)
      → Collected access c token m n env w w'
      → IsKept t w.storage w.log
      → IsKept t w'.storage w'.log
  collect_fee-IsKept c token m (negsuc n) env w w' fee k = absurd (ground (arith, fee.positive))
  collect_fee-IsKept c token m (pos n) env w w' fee k = elim (Bool-cases (token == t)) [
    | inr other ↦
        unmoved-IsKept t w.storage w'.storage w.log w'.log (ground (arith, fee.written))
          (ground (arith, fee.written)) (ground (arith, fee.log')) (ground (arith, fee.log')) k
    | inl same ↦
        credited-IsKept n w'.storage w'.log w.storage w.log (ground (arith, fee.written))
          (ground (arith, fee.written)) (ground (arith, fee.log')) (ground (arith, fee.log')) k
  ]

  -- A payment of `n` in the token itself.
  debited-IsKept :
      (n b : ℕ) (s' : Storage) (l' : Log Mode) (s : Storage) (l : Log Mode)
      → balance_of s t ≡ pos b
      → n ≤ b
      → balance_of s' t ≡ pos (b - n)
      → cumulative_of s' t ≡ cumulative_of s t
      → paid t l' ≡ paid t l + n
      → collected t l' ≡ collected t l
      → IsKept t s l
      → IsKept t s' l'
  debited-IsKept n b s' l' s l h fits g c p r k =
      let same : b ≡ k.balance = ground (arith, h, k.held) in
      record {
        balance = b - n;
        held = g;
        covered = ground (arith, p, r, k.covered, same);
        exact = ground (arith, p, r, k.exact, same);
        counted = ground (arith, c, r, k.counted);
      }

  pub withdraw_fees-IsKept :
      (c token to : Address) (n : ℤ) (env : Env Mode) (w w' : World S Mode)
      → Fees.withdraw_fees access c token to n env w ≡ ok (tt, w')
      → IsKept t w.storage w.log
      → IsKept t w'.storage w'.log
  unfolding Fees.withdraw_fees ◌-ℤ◌
  withdraw_fees-IsKept c token to (negsuc n) env w w' h k = absurd (ground arith)
  withdraw_fees-IsKept c token to (pos n) env w w' h k = elim (Bool-cases (token == t)) [
    | inr other ↦
        unmoved-IsKept t w.storage w'.storage w.log w'.log (ground arith) (ground arith)
          (ground arith) (ground arith) k
    | inl same ↦
        debited-IsKept n k.balance w'.storage w'.log w.storage w.log k.held (ground (arith, k.held))
          (ground (arith, k.held)) (ground arith) (ground arith) (ground arith) k
  ]

  pub distribute-IsKept :
      (token : Address) (b : ℕ) (xs : List Share) (w w' : World S Mode)
      → balance_of w.storage token ≡ pos b
      → Distributes token b xs w w'
      → IsKept t w.storage w.log
      → IsKept t w'.storage w'.log
  distribute-IsKept token b xs w w' h out k = elim (Bool-cases (token == t)) [
    | inr other ↦
        unmoved-IsKept t w.storage w'.storage w.log w'.log (ground (arith, out.written))
          (ground (arith, out.written)) (ground (arith, out.spent t)) (out.reported t) k
    | inl same ↦
        debited-IsKept (portions b xs) b w'.storage w'.log w.storage w.log (ground (arith, h))
          out.within (ground (arith, out.written)) (ground (arith, out.written))
          (ground (arith, out.spent t)) (out.reported t) k
  ]
