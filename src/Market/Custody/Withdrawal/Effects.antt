-- ===== src/Market/Custody/Withdrawal/Effects.antt =====
-- What a return of `withdraw_unused_collateral` has done (contracts/market/src/withdraw.rs).
use vatix_contract.Prelude.{
  ℕ, ℤ, pos, ◌≤ℤ◌, ◌+ℤ◌, ◌-ℤ◌, true, false, some, ok, ◌≡◌, ◌≢◌, ◌⊎◌, ◌∙◌, ap, sym, ⊤, >>=-eq-ok,
  ◌>>=◌,
}
use vatix_contract.Market.Types.{Address, Market, Position}
use vatix_contract.Market.Custody.Store.{MarketStore, IsMarketStore}
use vatix_contract.Market.Custody.World.{World, Env, M}
use vatix_contract.Market.Custody.Deposit.{is_active}
use vatix_contract.Market.Custody.Access.{position_in}
use vatix_contract.Market.Custody.Withdrawal.{
  is_cooling, saturating_sub, withdrawable_position, admit_withdrawal, withdrawal_fee,
  debit_withdrawal, pay_withdrawal, withdraw_unused_collateral,
}
use vatix_contract.Market.Custody.Withdrawal.Admission.{
  Allowed, admit_withdrawal-Allowed, withdrawable_position_lem, IsFee, withdrawal_fee-IsFee,
  fee_positive,
}
use vatix_contract.Market.Custody.Withdrawal.Payment.{paid_out, fee_logged, payment-Paid}

module _ {S : Type 0} (store : MarketStore S) (laws : IsMarketStore store) where
  -- What a return of `withdraw_unused_collateral` has done.
  pub record Withdrawn (user : Address) (m : ℕ) (n : ℤ) (env : Env) (w w' : World S) : Type 0 where
    pub market : Market
    pub fee : ℤ
    pub total : ℤ
    pub signed : env.authorized user ≡ true
    pub positive : pos 1 ≤ℤ n
    pub listed : store.get_market w.state m ≡ ok (some market)
    pub running : is_active market.status ≡ true
    pub cooled : is_cooling (store.get_last_deposit_time w.state m user) env.timestamp ≡ false
    pub is_fee : IsFee store laws user n fee w.state
    pub fee_sign : pos 0 ≤ℤ fee
    pub sum : total ≡ (position_in store laws w.state m user).total_deposited -ℤ (n +ℤ fee)
    pub backed : (position_in store laws w.state m user).locked_collateral ≤ℤ total
    pub saved :
        laws.position_of w'.state m user
        ≡ some (record (position_in store laws w.state m user) { total_deposited = total })
    pub others :
        (k : ℕ) (v : Address)
        → (k ≢ m) ⊎ (v ≢ user)
        → laws.position_of w'.state k v ≡ laws.position_of w.state k v
    pub log' :
        w'.log
        ≡ paid_out store laws env.this market.collateral_token user m n fee total
            (store.get_treasury w.state)
            env.timestamp
            (fee_logged store laws m user fee
              (saturating_sub
                (position_in store laws w.state m user).total_deposited
                (position_in store laws w.state m user).locked_collateral)
              w.log)

  -- A return of withdraw_unused_collateral: the user signed, the amount is positive, the market is
  -- active and the last deposit at least 3600 seconds old; the user got exactly the amount, the fee
  -- of calculate_fee, or none, went to the treasury and was reported to it or stayed; the deposits
  -- are less by both and still cover the lock, and no other position has changed.
  pub withdraw_unused_collateral-Withdrawn :
      (user : Address) (m : ℕ) (n : ℤ) (env : Env) (w w' : World S)
      → withdraw_unused_collateral store user m n env w ≡ ok (tt, w')
      → Withdrawn user m n env w w'
  unfolding withdraw_unused_collateral
  withdraw_unused_collateral-Withdrawn user m n env w w' h =
      let (market, w1, first, next) =
        >>=-eq-ok (admit_withdrawal store user m n) take_out env w tt w' h in
      let allowed = admit_withdrawal-Allowed store laws user m n market env w w1 first in
      after market allowed (from_here (take_out market) w1 allowed.same next)
    where
      pay : Market → Position → ℤ → M S ⊤
      pay market position fee =
          debit_withdrawal store user m position n fee
          >>= pay_withdrawal store market.collateral_token user m n fee

      charge : Market → Position → M S ⊤
      charge market position = withdrawal_fee store user n >>= pay market position

      take_out : Market → M S ⊤
      take_out market = withdrawable_position store user m n >>= charge market

      from_here : (k : M S ⊤) (v : World S) → v ≡ w → k env v ≡ ok (tt, w') → k env w ≡ ok (tt, w')
      from_here k v same r = ap (λ x. k env x) (sym same) ∙ r

      finish :
          (market : Market) (w1 : World S)
          → Allowed store laws user m n market env w w1
          → (p : Position) → p ≡ position_in store laws w.state m user
          → (fee : ℤ) → IsFee store laws user n fee w.state
          → pay market p fee env w ≡ ok (tt, w')
          → Withdrawn user m n env w w'
      finish market w1 allowed p held fee is_fee r =
          let sign = fee_positive store laws user n fee w.state is_fee in
          let paid =
            payment-Paid store laws market.collateral_token user m p n fee env w w' allowed.positive
              sign r in
          record {
            market = market;
            fee = fee;
            total = paid.total;
            signed = allowed.signed;
            positive = allowed.positive;
            listed = allowed.listed;
            running = allowed.running;
            cooled = allowed.cooled;
            is_fee = is_fee;
            fee_sign = sign;
            sum = rw (sym held) paid.sum;
            backed = rw (sym held) paid.backed;
            saved = rw (sym held) paid.saved;
            others = paid.others;
            log' = rw (sym held) paid.log';
          }

      after :
          (market : Market) {w1 : World S}
          → Allowed store laws user m n market env w w1
          → take_out market env w ≡ ok (tt, w')
          → Withdrawn user m n env w w'
      after market {w1 = w1} allowed r =
          let (p, w2, second, rest) =
            >>=-eq-ok (withdrawable_position store user m n) (charge market) env w tt w' r in
          let (held, same2) = withdrawable_position_lem store laws user m n p env w w2 second in
          let (fee, w3, third, last) =
            >>=-eq-ok (withdrawal_fee store user n) (pay market p) env w tt w'
              (from_here (charge market p) w2 same2 rest) in
          let (is_fee, same3) = withdrawal_fee-IsFee store laws user n fee env w w3 third in
          finish market w1 allowed p held fee is_fee (from_here (pay market p fee) w3 same3 last)
