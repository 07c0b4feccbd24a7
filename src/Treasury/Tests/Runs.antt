-- ===== src/Treasury/Tests/Runs.antt =====
-- Histories of the treasury from its deployment (contracts/treasury/src/lib.rs).
use vatix_contract.Prelude.{
  ℕ, ℤ, ◌*ℤ◌, ◌/ℤ◌, ◌+ℤ◌, ◌-ℤ◌, Option, pos, false, List, [], ◌∷◌, none, some, refl, ◌≡◌,
}
use vatix_contract.Treasury.Types.{Address}
use vatix_contract.Treasury.World.{World, Env, fresh}
use vatix_contract.Treasury.Storage.{balance_of, markets_of}
use vatix_contract.Treasury.History.{
  Request, initialize, collect_fee, withdraw_fees, add_market, remove_market, propose_admin,
  execute_admin, propose_stakeholders, execute_stakeholders, distribute_fees, run, step, exec,
}
use vatix_contract.Treasury.History.Ledger.{collected, paid, paid_to}
use vatix_contract.Treasury.History.Books.{IsSound, run-IsSound}
use vatix_contract.Treasury.History.Directory.{Roles, Shows}
use vatix_contract.Treasury.History.Roles.{accepted, replay, run-Shows}
use vatix_contract.Treasury.Fees
use vatix_contract.Treasury.Distribution
use vatix_contract.Treasury.Registry
use vatix_contract.Treasury.Admin
use vatix_contract.Treasury.Tests.Stage.{
  Keys, no_keys, keys, keys_laws, operator, market_one, market_two, coin, shares, at_time,
}

-- The second execution of the shares comes too early and changes nothing; so does the last call, by
-- the former administrator.
abbrev history : List (Env ℕ × Request ℕ)
history =
    (at_time 0, initialize operator market_one)
    ∷ (at_time 1, add_market operator market_two)
    ∷ (at_time 2, collect_fee market_one coin 7 (pos 60))
    ∷ (at_time 3, propose_stakeholders operator shares)
    ∷ (at_time 4, execute_stakeholders)
    ∷ (at_time 5, collect_fee market_two coin 8 (pos 40))
    ∷ (at_time 172803, execute_stakeholders)
    ∷ (at_time 172804, distribute_fees operator coin)
    ∷ (at_time 172805, remove_market operator market_one)
    ∷ (at_time 172806, propose_admin operator 11)
    ∷ (at_time 345606, execute_admin)
    ∷ (at_time 345607, withdraw_fees operator coin operator (pos 1))
    ∷ []

abbrev later : World Keys ℕ
later = run keys history (fresh no_keys)

-- The balance, the reports and the payments; what two stakeholders got; the administrator and the
-- markets.
abbrev summary : ((ℤ × ℕ × ℕ) × (ℕ × ℕ)) × (Option Address × List Address)
summary = (
  (
    (balance_of later.storage coin, collected coin later.log, paid coin later.log),
    (paid_to 31 coin later.log, paid_to 33 coin later.log),
  ),
  (later.storage.admin, markets_of later.storage),
)

later_summary : summary ≡ (((pos 1, 100, 99), (33, 33)), (some 11, market_two ∷ []))
unfolding run step exec Admin.initialize Registry.add_market Fees.collect_fee
    Distribution.propose_stakeholders Distribution.execute_stakeholders Distribution.distribute_fees
    Registry.remove_market Admin.propose_admin Admin.execute_admin Fees.withdraw_fees
    Distribution.sum_shares Distribution.compute_payouts Distribution.pay_each
    Distribution.distribute ◌*ℤ◌ ◌/ℤ◌ ◌+ℤ◌ ◌-ℤ◌
later_summary = refl

run-IsSound_example : IsSound keys keys_laws coin (run keys history (fresh no_keys))
run-IsSound_example = run-IsSound keys keys_laws no_keys coin history refl refl

abbrev nobody : Roles
nobody = record {
  administrator = none;
  registered = λ a. false;
  next_administrator = none;
  next_market = none;
}

fresh-Shows : Shows (fresh {S = Keys} {Mode = ℕ} no_keys).storage nobody
fresh-Shows = record {
  administrator = refl;
  registered = λ a. refl;
  next_administrator = refl;
  next_market = refl;
}

run-Shows_example :
    Shows
      (run keys history (fresh no_keys)).storage
      (replay (accepted keys history (fresh no_keys)) nobody)
run-Shows_example = run-Shows keys history (fresh no_keys) nobody fresh-Shows
