-- ===== src/Treasury/Fees/Withdrawal.antt =====
-- When `withdraw_fees` returns, and what it has done then (contracts/treasury/src/lib.rs).
use vatix_contract.Prelude.{
  ℕ, ◌-◌, ◌≤◌, ◌<◌, pos, ◌-ℤ◌, true, some, ◌∷◌, ok, ◌≡◌, ◌↔◌, ◌∙◌, sym, ap, update, i128_max, arith,
}
use vatix_contract.Treasury.Types.{Address}
use vatix_contract.Treasury.World.{Accessors, World, Env, fees_withdrawn, transfer, publish}
use vatix_contract.Treasury.Storage.{balance_of}
use vatix_contract.Treasury.Laws.{IsOpen}
use vatix_contract.Treasury.Fees.{withdraw_fees}

module _ {S Mode : Type 0} (access : Accessors S Mode) where
  -- The world after a payment of `n` from a balance of `b`.
  abbrev pub withdrawn : Address → Address → ℕ → ℕ → Env Mode → World S Mode → World S Mode
  withdrawn t to b n env w = record w {
    storage = record w.storage {
      token_balance = update w.storage.token_balance t (some (pos (b - n)));
    };
    log =
        publish (fees_withdrawn t to (pos n) (pos (b - n)))
        ∷ transfer t env.this to (pos n)
        ∷ w.log;
  }

  pub record IsWithdrawable (c t to : Address) (b n : ℕ) (env : Env Mode) (w : World S Mode)
      : Type 0 where
    pub opened : IsOpen access c env w
    pub positive : 0 < n
    pub covered : n ≤ b
    pub paid : env.transfer_returns w.log t env.this to (pos n) ≡ true

  withdraw_fees-only :
      (c t to : Address) (b n : ℕ) (env : Env Mode) (w w' : World S Mode)
      → balance_of w.storage t ≡ pos b
      → withdraw_fees access c t to (pos n) env w ≡ ok (tt, w')
      → (w' ≡ withdrawn t to b n env w) × IsWithdrawable c t to b n env w
  unfolding withdraw_fees ◌-ℤ◌
  withdraw_fees-only c t to b n env w w' held h = (
    ground arith,
    record {
      opened = record {
        signed = ground arith;
        admin = ground arith;
        current = ground arith;
        running = ground arith;
        allowed = ground arith;
      };
      positive = ground arith;
      covered = ground arith;
      paid = ground arith;
    },
  )

  withdraw_fees-returns :
      (c t to : Address) (b n : ℕ) (env : Env Mode) (w : World S Mode)
      → balance_of w.storage t ≡ pos b
      → b ≤ i128_max
      → IsWithdrawable c t to b n env w
      → withdraw_fees access c t to (pos n) env w ≡ ok (tt, withdrawn t to b n env w)
  unfolding withdraw_fees ◌-ℤ◌
  withdraw_fees-returns c t to b n env w held fits x =
      let o = x.opened in
      ground (
        arith, o.signed, o.admin, o.current, o.running, o.allowed, x.positive, x.covered, x.paid,
        held, fits,
      )

  -- For a balance of b within i128, withdraw_fees of n returns exactly when the treasury is open and
  -- its administrator signed, n is positive and at most b, and the transfer of the token returns; it
  -- has then paid n, left b - n and published that.
  pub withdraw_fees_lem :
      (c t to : Address) (b n : ℕ) (env : Env Mode) (w w' : World S Mode)
      → balance_of w.storage t ≡ pos b
      → b ≤ i128_max
      → (withdraw_fees access c t to (pos n) env w ≡ ok (tt, w'))
        ↔ ((w' ≡ withdrawn t to b n env w) × IsWithdrawable c t to b n env w)
  withdraw_fees_lem c t to b n env w w' held fits = (
    withdraw_fees-only c t to b n env w w' held,
    λ x. withdraw_fees-returns c t to b n env w held fits x.1 ∙ ap (λ v. ok (tt, v)) (sym x.0),
  )
