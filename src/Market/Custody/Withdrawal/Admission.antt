-- ===== src/Market/Custody/Withdrawal/Admission.antt =====
-- What the guards of `withdraw_unused_collateral` let through, and the fee
-- (contracts/market/src/withdraw.rs).
use vatix_contract.Prelude.{
  ℕ, ℤ, pos, ◌≤ℤ◌, ltb_ℤ, true, false, ◌&&◌, not, Option, none, some, Bool-cases, inl, inr, Outcome,
  ok, err, trap, ◌≡◌, ◌⊎◌, refl, arith,
}
use vatix_contract.Market.Types.{Address, Market, Position}
use vatix_contract.Market.Validation.{Result, done, fail, validate_collateral_amount, calculate_fee}
use vatix_contract.Market.Validation.Fees.{calculate_fee-exact}
use vatix_contract.Market.Custody.Store.{Failure, MarketStore, IsMarketStore}
use vatix_contract.Market.Custody.World.{World, Env}
use vatix_contract.Market.Custody.Deposit.{is_active}
use vatix_contract.Market.Custody.Access.{position_in}
use vatix_contract.Market.Custody.Withdrawal.{
  is_cooling, withdrawable_position, require_cooled, admit_withdrawal, withdrawal_fee,
}

module _ {S : Type 0} (store : MarketStore S) (laws : IsMarketStore store) where
  -- The guards have let the withdrawal through; nothing is written yet.
  pub record Allowed (user : Address) (m : ℕ) (n : ℤ) (market : Market) (env : Env) (w w' : World S)
      : Type 0 where
    pub signed : env.authorized user ≡ true
    pub positive : pos 1 ≤ℤ n
    pub listed : store.get_market w.state m ≡ ok (some market)
    pub running : is_active market.status ≡ true
    pub cooled : is_cooling (store.get_last_deposit_time w.state m user) env.timestamp ≡ false
    pub same : w' ≡ w

  pub admit_withdrawal-Allowed :
      (user : Address) (m : ℕ) (n : ℤ) (market : Market) (env : Env) (w w' : World S)
      → admit_withdrawal store user m n env w ≡ ok (market, w')
      → Allowed user m n market env w w'
  unfolding admit_withdrawal require_cooled validate_collateral_amount
  admit_withdrawal-Allowed user m n market env w w' h = go (store.get_market w.state m) refl
    where
      go :
          (r : Outcome Failure (Option Market))
          → store.get_market w.state m ≡ r
          → Allowed user m n market env w w'
      go (ok none) e = absurd (ground (arith, e))
      go (ok (some k)) e = record {
        signed = ground (arith, e);
        positive = ground (arith, e);
        listed = ground (arith, e);
        running = ground (arith, e);
        cooled = ground (arith, e);
        same = ground (arith, e);
      }
      go (err x) e = absurd (ground (arith, e))
      go trap e = absurd (ground (arith, e))

  pub withdrawable_position_lem :
      (user : Address) (m : ℕ) (n : ℤ) (p : Position) (env : Env) (w w' : World S)
      → withdrawable_position store user m n env w ≡ ok (p, w')
      → (p ≡ position_in store laws w.state m user) × (w' ≡ w)
  unfolding withdrawable_position
  withdrawable_position_lem user m n p env w w' h = go (store.get_position w.state m user) refl
    where
      go :
          (r : Outcome Failure (Option Position))
          → store.get_position w.state m user ≡ r
          → (p ≡ position_in store laws w.state m user) × (w' ≡ w)
      go (ok q) e =
          let held = laws.get_position w.state m user q e in
          (ground (arith, e, held), ground (arith, e))
      go (err x) e = absurd (ground (arith, e))
      go trap e = absurd (ground (arith, e))

  -- No fee, or the one that `calculate_fee` answers for a user who has to pay it.
  abbrev pub IsFee : Address → ℤ → ℤ → S → Type 0
  IsFee user n fee s =
      (fee ≡ pos 0)
      ⊎ ((store.is_fee_waived s user ≡ false)
          × (pos 1 ≤ℤ store.get_fee_rate_bps s)
          × (calculate_fee n (store.get_fee_rate_bps s) ≡ done fee))

  pub withdrawal_fee-IsFee :
      (user : Address) (n fee : ℤ) (env : Env) (w w' : World S)
      → withdrawal_fee store user n env w ≡ ok (fee, w')
      → IsFee user n fee w.state × (w' ≡ w)
  unfolding withdrawal_fee
  withdrawal_fee-IsFee user n fee env w w' h =
      go (calculate_fee n (store.get_fee_rate_bps w.state)) refl
    where
      go :
          (r : Result ℤ)
          → calculate_fee n (store.get_fee_rate_bps w.state) ≡ r
          → IsFee user n fee w.state × (w' ≡ w)
      go (fail x) e = (inl (ground (arith, e)), ground (arith, e))
      go (done f) e =
          elim (Bool-cases (
            ltb_ℤ (pos 0) (store.get_fee_rate_bps w.state)
            && not (store.is_fee_waived w.state user))) [
              | inl pays ↦
                  (inr (ground (arith, e), ground (arith, e), ground (arith, e)), ground (arith, e))
              | inr free ↦ (inl (ground (arith, e)), ground (arith, e))
            ]

  -- The fee is never negative.
  pub fee_positive : (user : Address) (n fee : ℤ) (s : S) → IsFee user n fee s → pos 0 ≤ℤ fee
  fee_positive user n fee s (inl free) = ground (arith, free)
  fee_positive user n fee s (inr (liable, rated, e)) =
      ground (arith, (calculate_fee-exact n (store.get_fee_rate_bps s) fee e).5)
