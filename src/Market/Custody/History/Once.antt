-- ===== src/Market/Custody/History/Once.antt =====
-- A position is settled once (contracts/market/src/settlement.rs).
use vatix_contract.Prelude.{
  ℕ, ℤ, true, ◌&&◌, ◌==◌, Bool-cases, inl, inr, List, ok, ◌≡◌, ◌≢◌, ◌⊎◌, sym, pure, >>=-eq-ok,
  arith,
}
use vatix_contract.Market.Types.{Address}
use vatix_contract.Market.Custody.Store.{MarketStore, IsMarketStore}
use vatix_contract.Market.Custody.World.{World, Env}
use vatix_contract.Market.Custody.Access.{position_in}
use vatix_contract.Market.Custody.Deposit.Effects.{deposit_collateral-Deposited}
use vatix_contract.Market.Custody.Withdrawal.Effects.{withdraw_unused_collateral-Withdrawn}
use vatix_contract.Market.Custody.Settlement.{settle_position}
use vatix_contract.Market.Custody.Settlement.Effects.{Settled, settle_position-Settled}
use vatix_contract.Market.Custody.History.{
  Request, deposit, withdraw, settle, exec, run, Keeps, run-Keeps,
}

module _ {S : Type 0} (store : MarketStore S) (laws : IsMarketStore store) where
  -- The answer of a settlement is dropped in a history.
  pub settle-Settled :
      (user : Address) (m : ℕ) (env : Env) (w w' : World S)
      → exec store (settle user m) env w ≡ ok (tt, w')
      → (payout : ℤ) × Settled store laws user m payout env w w'
  unfolding exec
  settle-Settled user m env w w' h =
      let (n, w1, first, next) =
        >>=-eq-ok (settle_position store user m) (λ n. pure tt) env w tt w' h in
      let same : w1 ≡ w' = ground arith in
      (n, settle_position-Settled store laws user m n env w w' (rw (sym same) first))

module _ {S : Type 0} (store : MarketStore S) (laws : IsMarketStore store) (m : ℕ)
    (u : Address) where
  -- Another key, or the same one.
  pub same-or-distinct : (user : Address) (k : ℕ) → ((k ≡ m) × (user ≡ u)) ⊎ ((m ≢ k) ⊎ (u ≢ user))
  same-or-distinct user k = elim (Bool-cases (user == u && k == m)) [
    | inl same ↦ inl (ground arith, ground arith)
    | inr other ↦ elim (Bool-cases (k == m)) [
      | inl same ↦ inr (inr (λ e. absurd (ground (arith, e))))
      | inr differs ↦ inr (inl (λ e. absurd (ground (arith, e))))
    ]
  ]

  abbrev pub IsSettled : World S → Type 0
  IsSettled w = (position_in store laws w.state m u).is_settled ≡ true

  exec-IsSettled : Keeps store IsSettled
  unfolding exec
  exec-IsSettled (deposit user k n) env w w' h s =
      let d = deposit_collateral-Deposited store laws user k n env w w' h in
      elim (same-or-distinct user k) [
        | inl (same_market, same_user) ↦ ground (arith, d.saved)
        | inr other ↦ ground (arith, d.others m u other)
      ]
  exec-IsSettled (withdraw user k n) env w w' h s =
      let d = withdraw_unused_collateral-Withdrawn store laws user k n env w w' h in
      elim (same-or-distinct user k) [
        | inl (same_market, same_user) ↦ ground (arith, d.saved)
        | inr other ↦ ground (arith, d.others m u other)
      ]
  exec-IsSettled (settle user k) env w w' h s =
      let (n, d) = settle-Settled store laws user k env w w' h in
      elim (same-or-distinct user k) [
        | inl (same_market, same_user) ↦ ground (arith, d.saved)
        | inr other ↦ ground (arith, d.others m u other)
      ]

  -- A position that settle_position has settled is never settled again: after any later history of
  -- deposits, withdrawals and settlements, by any host, the call does not return.
  pub settle_position-once :
      (payout again : ℤ) (env env' : Env) (w w1 w2 : World S) (cs : List (Env × Request))
      → settle_position store u m env w ≡ ok (payout, w1)
      → settle_position store u m env' (run store cs w1) ≢ ok (again, w2)
  settle_position-once payout again env env' w w1 w2 cs first second =
      let d = settle_position-Settled store laws u m payout env w w1 first in
      let start : IsSettled w1 = ground (arith, d.saved) in
      let later = run-Keeps store IsSettled exec-IsSettled cs w1 start in
      let e = settle_position-Settled store laws u m again env' (run store cs w1) w2 second in
      absurd (ground (arith, e.held, e.unsettled, later))
