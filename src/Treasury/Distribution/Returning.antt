-- ===== src/Treasury/Distribution/Returning.antt =====
-- When `distribute_fees` returns (contracts/treasury/src/lib.rs).
use vatix_contract.Prelude.{
  ℕ, ◌+◌, ◌-◌, ◌*◌, ◌/◌, ◌≤◌, ◌<◌, ℤ, pos, true, List, [], ◌∷◌, ◌++◌, some, ok, ◌≡◌, refl, ap,
  update, i128_max, length, arith,
}
use mathlib.Core.List.{append_assoc, append-nil}
use vatix_contract.Treasury.Types.{Address, Share}
use vatix_contract.Treasury.World.{Accessors, World, Env, Log, transfer, publish, fees_distributed}
use vatix_contract.Treasury.Storage.{balance_of}
use vatix_contract.Treasury.Laws.{IsOpen}
use vatix_contract.Treasury.Distribution.{compute_payouts, pay_each, distribute, distribute_fees}
use vatix_contract.Treasury.Distribution.Shares.{
  weight, portions, payable, portions-within, mul-add,
}
use vatix_contract.Treasury.Distribution.Payments.{
  checked_mul-pos, div-pos, checked_add-pos, checked_sub-pos,
}

-- The loop finds every payout when the products and the sum fit an i128.
compute_payouts-returns :
    (b : ℕ) (xs : List Share) (acc : List (Address × ℤ)) (d : ℕ)
    → b * weight xs ≤ i128_max
    → d + portions b xs ≤ i128_max
    → compute_payouts (pos b) xs acc (pos d) ≡ some (acc ++ payable b xs, pos (d + portions b xs))
unfolding compute_payouts
compute_payouts-returns b [] acc d fits room = ground (arith, append-nil acc)
compute_payouts-returns b ((a, s) ∷ xs) acc d fits room =
    let split = mul-add b s (weight xs) in
    let m = checked_mul-pos b s in
    let q = div-pos (b * s) in
    let n = checked_add-pos d (b * s / 10000) in
    let join = append_assoc acc ((a, pos (b * s / 10000)) ∷ []) (payable b xs) in
    let small = compute_payouts-returns b xs acc d in
    let large =
      compute_payouts-returns b xs (acc ++ (a, pos (b * s / 10000)) ∷ []) (d + b * s / 10000) in
    ground (arith, split, m, q, n, small, large, join)

-- Every transfer of the token returns.
abbrev pub PaysAll : {Mode : Type 0} → Address → Env Mode → Type 0
PaysAll {Mode = Mode} t env =
    (l : Log Mode) (from to : Address) (n : ℤ) → env.transfer_returns l t from to n ≡ true

module _ {S Mode : Type 0} where
  pay_each-returns :
      (t this : Address) (xs : List (Address × ℤ)) (env : Env Mode) (w : World S Mode)
      → PaysAll t env
      → (w' : World S Mode) × (pay_each t this xs env w ≡ ok (tt, w'))
  unfolding pay_each
  pay_each-returns t this [] env w pays = (w, refl)
  pay_each-returns t this ((a, n) ∷ xs) env w pays =
      let w1 = record w { log = transfer t this a n ∷ w.log } in
      let (w', e) = pay_each-returns t this xs env w1 pays in
      (w', ground (arith, pays w.log this a n, e))

  distribute-returns :
      (t : Address) (b : ℕ) (xs : List Share) (env : Env Mode) (w : World S Mode)
      → PaysAll t env
      → weight xs ≡ 10000
      → b * 10000 ≤ i128_max
      → (w' : World S Mode) × (distribute t (pos b) xs env w ≡ ok (tt, w'))
  unfolding distribute
  distribute-returns t b xs env w pays full fits =
      let within = portions-within b xs full in
      let scaled : b * weight xs ≡ b * 10000 = ap (λ n. b * n) full in
      let found =
        compute_payouts-returns b xs [] 0 (omega (arith, scaled, fits))
          (omega (arith, within, fits)) in
      let left = checked_sub-pos b (portions b xs) within in
      let w1 : World S Mode = record w {
        storage = record w.storage {
          token_balance = update w.storage.token_balance t (some (pos (b - portions b xs)));
        };
      } in
      let (w2, paid) = pay_each-returns t env.this (payable b xs) env w1 pays in
      (
        record w2 {
          log =
              publish (
                fees_distributed t (pos (portions b xs)) (pos (b - portions b xs)) (length xs)
                  env.timestamp)
              ∷ w2.log;
        },
        ground (arith, found, left, paid, fits),
      )

module _ {S Mode : Type 0} (access : Accessors S Mode) where
  -- distribute_fees returns for the administrator of an open treasury with shares of 10000 together,
  -- a positive balance that is an i128 also ten thousand times, and a token whose transfers return.
  pub distribute_fees-returns :
      (c t : Address) (b : ℕ) (xs : List Share) (env : Env Mode) (w : World S Mode)
      → IsOpen access c env w
      → access.get_stakeholders w.storage w.rest ≡ ok xs
      → weight xs ≡ 10000
      → balance_of w.storage t ≡ pos b
      → 0 < b
      → b * 10000 ≤ i128_max
      → PaysAll t env
      → (w' : World S Mode) × (distribute_fees access c t env w ≡ ok (tt, w'))
  unfolding distribute_fees
  distribute_fees-returns c t b xs env w open_now listed full held some_fees fits pays =
      let (w', e) = distribute-returns t b xs env w pays full fits in
      let some_one : 0 < length xs = weight-length xs full in
      (
        w',
        ground (
          arith, e, listed, held, some_one, open_now.signed, open_now.admin, open_now.current,
          open_now.running, open_now.allowed,
        ),
      )
    where
      weight-length : (ys : List Share) → weight ys ≡ 10000 → 0 < length ys
      weight-length [] h = absurd (omega arith)
      weight-length (y ∷ ys) h = omega arith
