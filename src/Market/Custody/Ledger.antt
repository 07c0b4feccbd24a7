-- ===== src/Market/Custody/Ledger.antt =====
-- What the log says of a user in a market, and of the payments of a token
-- (contracts/market/src/deposit.rs, withdraw.rs, settlement.rs).
use vatix_contract.Prelude.{ℕ, ◌+◌, ℤ, pos_part, Bool, ◌&&◌, ◌==◌, [], ◌∷◌, if◌then◌else◌}
use vatix_contract.Market.Types.{Address}
use vatix_contract.Market.Custody.World.{
  Log, Event, transfer, collect_fee, burn, publish, collateral_deposited, collateral_withdrawn,
  fee_calculated,
}

-- The deposits, withdrawals and fees of the user `u` in the market `m`.
abbrev pub amount_if : Bool → ℤ → ℕ
amount_if b n = if b then pos_part n else 0

abbrev pub deposited_by : ℕ → Address → Event → ℕ
deposited_by m u (collateral_deposited user k n total) = amount_if (user == u && k == m) n
deposited_by m u e = 0

abbrev pub withdrawn_by : ℕ → Address → Event → ℕ
withdrawn_by m u (collateral_withdrawn user k n total) = amount_if (user == u && k == m) n
withdrawn_by m u e = 0

abbrev pub charged_by : ℕ → Address → Event → ℕ
charged_by m u (fee_calculated k user n available) = amount_if (user == u && k == m) n
charged_by m u e = 0

abbrev pub total_of : (Event → ℕ) → Log → ℕ
total_of f [] = 0
total_of f (publish e ∷ l) = f e + total_of f l
total_of f (transfer token from to n ∷ l) = total_of f l
total_of f (collect_fee treasury caller token m n ∷ l) = total_of f l
total_of f (burn contract m user kind n ∷ l) = total_of f l

-- The transfers of the token `t` to the address `a`.
abbrev pub paid_in : Address → Address → Log → ℕ
paid_in t a [] = 0
paid_in t a (publish e ∷ l) = paid_in t a l
paid_in t a (transfer token from to n ∷ l) = amount_if (token == t && to == a) n + paid_in t a l
paid_in t a (collect_fee treasury caller token m n ∷ l) = paid_in t a l
paid_in t a (burn contract m user kind n ∷ l) = paid_in t a l
