-- ===== src/Market/Custody/Accounts.antt =====
-- What a user has put into a market, got back, paid in fees and has left, over any deposits and
-- withdrawals (contracts/market/src/deposit.rs, withdraw.rs).
use vatix_contract.Prelude.{
  ℕ, ◌+◌, ℤ, pos, negsuc, pos_part, ◌+ℤ◌, ◌-ℤ◌, ◌≤ℤ◌, false, ◌&&◌, ◌==◌, Bool-cases, Option, none,
  some, inl, inr, ◌≡◌, ◌≢◌, ◌⊎◌, ◌∙◌, ap, arith,
}
use vatix_contract.Market.Types.{Address}
use vatix_contract.Market.Custody.Store.{MarketStore, IsMarketStore}
use vatix_contract.Market.Custody.World.{World, Env, Log, Event}
use vatix_contract.Market.Custody.Ledger.{
  amount_if, deposited_by, withdrawn_by, charged_by, total_of,
}
use vatix_contract.Market.Custody.Access.{position_in}
use vatix_contract.Market.Custody.Deposit.Effects.{Deposited}
use vatix_contract.Market.Custody.Withdrawal.{saturating_sub}
use vatix_contract.Market.Custody.Withdrawal.Effects.{Withdrawn}
use vatix_contract.Market.Custody.Withdrawal.Payment.{paid_out, fee_logged}

module _ {S : Type 0} (store : MarketStore S) (laws : IsMarketStore store) (m : ℕ)
    (u : Address) where
  -- The position's deposits are what was put in, less what was taken out and charged, and cover its lock.
  pub record IsAccounted (w : World S) : Type 0 where
    pub balance : ℕ
    pub held : (position_in store laws w.state m u).total_deposited ≡ pos balance
    pub books :
        total_of (withdrawn_by m u) w.log + total_of (charged_by m u) w.log + balance
        ≡ total_of (deposited_by m u) w.log
    pub backed : (position_in store laws w.state m u).locked_collateral ≤ℤ pos balance
    pub lock_sign : pos 0 ≤ℤ (position_in store laws w.state m u).locked_collateral

  distinct : (user : Address) (k : ℕ) → (user == u && k == m) ≡ false → (m ≢ k) ⊎ (u ≢ user)
  distinct user k h = elim (Bool-cases (k == m)) [
    | inl same ↦ inr (λ e. absurd (ground (arith, e)))
    | inr other ↦ inl (λ e. absurd (ground (arith, e)))
  ]

  pub deposit-IsAccounted :
      (user : Address) (k : ℕ) (n : ℤ) (env : Env) (w w' : World S)
      → Deposited store laws user k n env w w'
      → IsAccounted w
      → IsAccounted w'
  unfolding ◌+ℤ◌
  deposit-IsAccounted user k (negsuc n) env w w' d a = absurd (ground (arith, d.positive))
  deposit-IsAccounted user k (pos n) env w w' d a = elim (Bool-cases (user == u && k == m)) [
    | inl mine ↦ record {
      balance = a.balance + n;
      held = ground (arith, d.saved, d.sum, a.held);
      books = ground (arith, d.log', a.books);
      backed = ground (arith, d.saved, a.backed);
      lock_sign = ground (arith, d.saved, a.lock_sign);
    }
    | inr other ↦
        let same = d.others m u (distinct user k other) in
        record {
          balance = a.balance;
          held = ground (arith, same, a.held);
          books = ground (arith, d.log', a.books);
          backed = ground (arith, same, a.backed);
          lock_sign = ground (arith, same, a.lock_sign);
        }
  ]

  -- What the log of a withdrawal adds to the three sums.
  withdrawn-paid_out :
      (this token user : Address) (k : ℕ) (n fee total available : ℤ) (t : Option Address) (at : ℕ)
      (l : Log)
      → total_of (withdrawn_by m u) (
          paid_out store laws this token user k n fee total t at
            (fee_logged store laws k user fee available l))
        ≡ amount_if (user == u && k == m) n + total_of (withdrawn_by m u) l
  withdrawn-paid_out this token user k n fee total available none at l = ground arith
  withdrawn-paid_out this token user k n fee total available (some t) at l = ground arith

  charged-paid_out :
      (this token user : Address) (k : ℕ) (n fee total available : ℤ) (t : Option Address) (at : ℕ)
      (l : Log)
      → pos 0 ≤ℤ fee
      → total_of (charged_by m u) (
          paid_out store laws this token user k n fee total t at
            (fee_logged store laws k user fee available l))
        ≡ amount_if (user == u && k == m) fee + total_of (charged_by m u) l
  charged-paid_out this token user k n fee total available none at l h = ground arith
  charged-paid_out this token user k n fee total available (some t) at l h = ground arith

  deposited-paid_out :
      (this token user : Address) (k : ℕ) (n fee total available : ℤ) (t : Option Address) (at : ℕ)
      (l : Log)
      → total_of (deposited_by m u) (
          paid_out store laws this token user k n fee total t at
            (fee_logged store laws k user fee available l))
        ≡ total_of (deposited_by m u) l
  deposited-paid_out this token user k n fee total available none at l = ground arith
  deposited-paid_out this token user k n fee total available (some t) at l = ground arith

  -- The three sums after a withdrawal.
  sum_after :
      (f : Event → ℕ) (l l' l1 : Log) (n : ℕ)
      → l' ≡ l1
      → total_of f l1 ≡ n + total_of f l
      → total_of f l' ≡ n + total_of f l
  sum_after f l l' l1 n e h = ap (total_of f) e ∙ h

  -- A debit of `n` and of the fee, in the position and in the sums.
  debit :
      (user : Address) (k : ℕ) (n fee total : ℤ) (w w' : World S)
      → pos 1 ≤ℤ n
      → pos 0 ≤ℤ fee
      → total ≡ (position_in store laws w.state k user).total_deposited -ℤ (n +ℤ fee)
      → (position_in store laws w.state k user).locked_collateral ≤ℤ total
      → laws.position_of w'.state k user
        ≡ some (record (position_in store laws w.state k user) { total_deposited = total })
      → ((i : ℕ) (v : Address)
          → (i ≢ k) ⊎ (v ≢ user)
          → laws.position_of w'.state i v ≡ laws.position_of w.state i v)
      → IsAccounted w
      → total_of (withdrawn_by m u) w'.log
        ≡ amount_if (user == u && k == m) n + total_of (withdrawn_by m u) w.log
      → total_of (charged_by m u) w'.log
        ≡ amount_if (user == u && k == m) fee + total_of (charged_by m u) w.log
      → total_of (deposited_by m u) w'.log ≡ total_of (deposited_by m u) w.log
      → IsAccounted w'
  unfolding ◌+ℤ◌ ◌-ℤ◌
  debit user k n fee total w w' positive sign sum backed saved others a withdrawn charged put_in =
      elim (Bool-cases (user == u && k == m)) [
        | inl mine ↦
            let covered : pos 0 ≤ℤ total = ground (arith, backed, a.lock_sign) in
            record {
              balance = pos_part total;
              held = ground (arith, saved, covered);
              books = ground (arith, sum, a.held, a.books, withdrawn, charged, put_in, covered);
              backed = ground (arith, saved, backed, covered);
              lock_sign = ground (arith, saved, a.lock_sign);
            }
        | inr other ↦
            let same = others m u (distinct user k other) in
            record {
              balance = a.balance;
              held = ground (arith, same, a.held);
              books = ground (arith, a.books, withdrawn, charged, put_in);
              backed = ground (arith, same, a.backed);
              lock_sign = ground (arith, same, a.lock_sign);
            }
      ]

  pub withdraw-IsAccounted :
      (user : Address) (k : ℕ) (n : ℤ) (env : Env) (w w' : World S)
      → Withdrawn store laws user k n env w w'
      → IsAccounted w
      → IsAccounted w'
  unfolding ◌+ℤ◌ ◌-ℤ◌
  withdraw-IsAccounted user k n env w w' d a =
      let token = d.market.collateral_token in
      let p = position_in store laws w.state k user in
      let available = saturating_sub p.total_deposited p.locked_collateral in
      let t = store.get_treasury w.state in
      let mine = user == u && k == m in
      let withdrawn : total_of (withdrawn_by m u) w'.log
          ≡ amount_if mine n + total_of (withdrawn_by m u) w.log =
        ap (total_of (withdrawn_by m u)) d.log'
        ∙ withdrawn-paid_out env.this token user k n d.fee d.total available t env.timestamp
            w.log in
      let charged : total_of (charged_by m u) w'.log
          ≡ amount_if mine d.fee + total_of (charged_by m u) w.log =
        ap (total_of (charged_by m u)) d.log'
        ∙ charged-paid_out env.this token user k n d.fee d.total available t env.timestamp w.log
            d.fee_sign in
      let put_in : total_of (deposited_by m u) w'.log ≡ total_of (deposited_by m u) w.log =
        ap (total_of (deposited_by m u)) d.log'
        ∙ deposited-paid_out env.this token user k n d.fee d.total available t env.timestamp
            w.log in
      debit user k n d.fee d.total w w' d.positive d.fee_sign d.sum d.backed d.saved d.others a
        withdrawn charged put_in
