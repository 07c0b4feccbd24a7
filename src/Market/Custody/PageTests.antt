-- ===== src/Market/Custody/PageTests.antt =====
-- Pages of settlements on concrete participants (contracts/market/src/settlement.rs).
use vatix_contract.Prelude.{
  ℕ, ℤ, pos, ◌+ℤ◌, ◌*◌, ◌≤◌, Bool, true, false, Option, some, List, [], length, ◌∷◌, ok, err, trap,
  Outcome, refl, ◌≡◌, arith,
}
use vatix_contract.Market.Types.{Market}
use vatix_contract.Market.Custody.Store.{Failure}
use vatix_contract.Market.Custody.World.{World}
use vatix_contract.Market.Custody.Settlement.{
  settle_positions_page, settle_each, settle_user, compute_settlement, burn_settled_outcome_tokens,
}
use vatix_contract.Market.Custody.Settlement.Visits.{Visits}
use vatix_contract.Market.Custody.Settlement.Rounds.{
  KeepsRegister, once, again, settle_positions_page-covers,
}
use vatix_contract.Market.Custody.Tests.{Tables, tables, opening, at_time}

tables_register : KeepsRegister tables
tables_register = record {
  participants = λ s s' m k u p h. refl;
  market = λ s s' m k u p h. ground (arith, h);
}

-- The world of an answer.
abbrev world_of : Outcome Failure ((ℤ × ℕ × Bool) × World Tables) → World Tables
world_of (ok (x, w)) = w
world_of (err e) = opening
world_of trap = opening

abbrev one_page : World Tables
one_page = world_of (settle_positions_page tables 2 0 1 (at_time 10) opening)

abbrev two_pages : World Tables
two_pages = world_of (settle_positions_page tables 2 1 1 (at_time 11) one_page)

first : settle_positions_page tables 2 0 1 (at_time 10) opening ≡ ok ((pos 40, 1, false), one_page)
unfolding settle_positions_page settle_each settle_user compute_settlement
    burn_settled_outcome_tokens ◌+ℤ◌
first = refl

second : settle_positions_page tables 2 1 1 (at_time 11) one_page ≡ ok ((pos 0, 2, true), two_pages)
unfolding settle_positions_page settle_each settle_user compute_settlement
    burn_settled_outcome_tokens ◌+ℤ◌
second = refl

settle_positions_page-covers_example :
    (market : Market) × (payouts : List (Option ℤ)) × (tables.get_market opening.state 2
      ≡ ok (some market))
    × Visits tables 2 market opening (7 ∷ 12 ∷ []) payouts two_pages
    × (2 ≡ length (tables.get_market_participants opening.state 2))
    × (1 * 1 ≤ 2)
    × (2 ≤ 2 * 1)
settle_positions_page-covers_example =
    settle_positions_page-covers tables 2 1 tables_register 1 2 opening two_pages (omega arith) (
      again 0 1 2 0 (pos 40) true (at_time 10) opening one_page two_pages first
        (once 1 2 (pos 0) true (at_time 11) one_page two_pages second))
