-- ===== src/Treasury/Tests/Calls.antt =====
-- Single calls of a funded treasury (contracts/treasury/src/lib.rs).
use vatix_contract.Prelude.{ℕ, ◌*ℤ◌, ◌/ℤ◌, ◌+ℤ◌, ◌-ℤ◌, pos, ok, refl, arith, ◌≡◌, ◌↔◌}
use vatix_contract.Treasury.World.{World}
use vatix_contract.Treasury.Laws.{IsOpen}
use vatix_contract.Treasury.Fees
use vatix_contract.Treasury.Fees.Withdrawal.{withdrawn, IsWithdrawable, withdraw_fees_lem}
use vatix_contract.Treasury.Distribution.{compute_payouts, pay_each, distribute, distribute_fees}
use vatix_contract.Treasury.Distribution.Returning.{distribute_fees-returns}
use vatix_contract.Treasury.Registry
use vatix_contract.Treasury.History.{add_market, exec, commit}
use vatix_contract.Treasury.History.Payouts.{Distributed, distribute_fees-Distributed}
use vatix_contract.Treasury.History.Authority.{IsAuthorized, exec-IsAuthorized}
use vatix_contract.Treasury.Tests.Stage.{
  Keys, keys, keys_laws, operator, market_two, coin, shares, at_time, funded, funded-IsWeighted,
}

abbrev shared_out : World Keys ℕ
shared_out = commit keys funded (distribute_fees keys operator coin (at_time 3) funded)

shares_out : distribute_fees keys operator coin (at_time 3) funded ≡ ok (tt, shared_out)
unfolding distribute_fees distribute compute_payouts pay_each ◌*ℤ◌ ◌/ℤ◌ ◌+ℤ◌ ◌-ℤ◌
shares_out = refl

distribute_fees-Distributed_example :
    Distributed keys keys_laws operator coin (at_time 3) funded shared_out
distribute_fees-Distributed_example =
    distribute_fees-Distributed keys keys_laws operator coin (at_time 3) funded shared_out
      funded-IsWeighted shares_out

funded-IsOpen : IsOpen keys operator (at_time 3) funded
funded-IsOpen = record {
  signed = refl;
  admin = refl;
  current = refl;
  running = refl;
  allowed = refl;
}

distribute_fees-returns_example :
    (w' : World Keys ℕ) × (distribute_fees keys operator coin (at_time 3) funded ≡ ok (tt, w'))
distribute_fees-returns_example =
    distribute_fees-returns keys operator coin 100 shares (at_time 3) funded funded-IsOpen refl refl
      refl (omega arith) (omega arith) (λ l from to n. refl)

withdraw_fees_lem_example :
    (Fees.withdraw_fees keys operator coin 31 (pos 30) (at_time 3) funded
      ≡ ok (tt, withdrawn keys coin 31 100 30 (at_time 3) funded))
    ↔ ((withdrawn keys coin 31 100 30 (at_time 3) funded
          ≡ withdrawn keys coin 31 100 30 (at_time 3) funded)
        × IsWithdrawable keys operator coin 31 100 30 (at_time 3) funded)
withdraw_fees_lem_example =
    withdraw_fees_lem keys operator coin 31 100 30 (at_time 3) funded
      (withdrawn keys coin 31 100 30 (at_time 3) funded) refl (omega arith)

abbrev enlarged : World Keys ℕ
enlarged = commit keys funded (exec keys (add_market operator market_two) (at_time 3) funded)

adds : exec keys (add_market operator market_two) (at_time 3) funded ≡ ok (tt, enlarged)
unfolding exec Registry.add_market
adds = refl

exec-IsAuthorized_example : IsAuthorized keys (add_market operator market_two) (at_time 3) funded
exec-IsAuthorized_example =
    exec-IsAuthorized keys (add_market operator market_two) (at_time 3) funded enlarged adds
