-- ===== src/Market/Custody/Withdrawal/Payment.antt =====
-- The debit and the payments of a withdrawal (contracts/market/src/withdraw.rs).
use vatix_contract.Prelude.{
  ℕ, ℤ, pos, ◌≤ℤ◌, ◌+ℤ◌, ◌-ℤ◌, ltb_ℤ, leb_ℤ, false, Option, none, some, Option-cases, inl, inr, ◌∷◌,
  ok, ◌≡◌, ◌≢◌, ◌⊎◌, ◌∙◌, ap, checked_add, checked_sub, if◌then◌else◌, >>=-eq-ok, ◌>>=◌, ◌>>◌, pure,
  expect, arith,
}
use vatix_contract.Market.Types.{Address, Position}
use vatix_contract.Market.Custody.Store.{MarketStore, IsMarketStore}
use vatix_contract.Market.Custody.World.{
  World, Env, Log, publish, collateral_withdrawn, large_withdraw, fee_calculated,
  fee_retained_no_treasury, transfer, collect_fee, peek, put,
}
use vatix_contract.Market.Custody.Deposit.{save_position}
use vatix_contract.Market.Custody.Access.{save_position-Saved}
use vatix_contract.Market.Custody.Withdrawal.{
  saturating_sub, large_withdraw_threshold, debit_withdrawal, pay_withdrawal,
}

-- Where a positive debit is no more than what is free, the lock stays covered.
saturating_sub-covers :
    (d t l z : ℤ)
    → pos 1 ≤ℤ d
    → ltb_ℤ (saturating_sub t l) d ≡ false
    → checked_sub t d ≡ some z
    → l ≤ℤ z
unfolding ◌-ℤ◌
saturating_sub-covers d t l z positive enough left = ground arith

positive_sum : (n fee d : ℤ) → pos 1 ≤ℤ n → pos 0 ≤ℤ fee → checked_add n fee ≡ some d → pos 1 ≤ℤ d
unfolding ◌+ℤ◌
positive_sum n fee d h k e = ground arith

module _ {S : Type 0} (store : MarketStore S) (laws : IsMarketStore store) where
  -- The event of a fee that is not zero.
  abbrev pub fee_logged : ℕ → Address → ℤ → ℤ → Log → Log
  fee_logged m user fee available l =
      if ltb_ℤ (pos 0) fee then publish (fee_calculated m user fee available) ∷ l else l

  -- What the position has left, which covers its lock, and the event of the fee.
  pub record Debited (user : Address) (m : ℕ) (position : Position) (n fee total : ℤ)
      (w w' : World S) : Type 0 where
    pub sum : total ≡ position.total_deposited -ℤ (n +ℤ fee)
    pub backed : position.locked_collateral ≤ℤ total
    pub saved :
        laws.position_of w'.state m user ≡ some (record position { total_deposited = total })
    pub others :
        (k : ℕ) (v : Address)
        → (k ≢ m) ⊎ (v ≢ user)
        → laws.position_of w'.state k v ≡ laws.position_of w.state k v
    pub logged :
        w'.log
        ≡ fee_logged m user fee
            (saturating_sub position.total_deposited position.locked_collateral)
            w.log
    pub treasury : store.get_treasury w'.state ≡ store.get_treasury w.state

  debit_withdrawal-Debited :
      (user : Address) (m : ℕ) (position : Position) (n fee total : ℤ) (env : Env) (w w' : World S)
      → pos 1 ≤ℤ n
      → pos 0 ≤ℤ fee
      → debit_withdrawal store user m position n fee env w ≡ ok (total, w')
      → Debited user m position n fee total w w'
  unfolding debit_withdrawal
  debit_withdrawal-Debited user m position n fee total env w w' some_amount no_less h =
      elim (Option-cases (checked_add n fee)) [
        | inl overflows ↦ absurd (ground arith)
        | inr (d, e) ↦ elim (Option-cases (checked_sub position.total_deposited d)) [
          | inl overflows ↦ absurd (ground (arith, e))
          | inr (z, f) ↦
              let available = saturating_sub position.total_deposited position.locked_collateral in
              let q : Position = record position { total_deposited = z } in
              let w1 : World S = record w { log = fee_logged m user fee available w.log } in
              let finish = λ (t : Unit {0}). do
                debited ← peek (λ s. store.debit_collateral_balance s user d)
                s ← expect debited
                put s
                pure z
              in let tail : (save_position store m user q >>= finish) env w1 ≡ ok (total, w') =
                  ground (arith, e, f) in
                let (t, w2, first, next) =
                  >>=-eq-ok (save_position store m user q) finish env w1 total w' tail in
                let kept = save_position-Saved store laws m user q env w1 w2 first in
                elim (Option-cases (store.debit_collateral_balance w2.state user d)) [
                  | inl panics ↦ absurd (ground arith)
                  | inr (s, g) ↦
                      let last : w'.state ≡ s = ground (arith, g) in
                      let same = λ (k : ℕ) (v : Address).
                        ap (λ x. laws.position_of x k v) last
                        ∙ laws.debit_collateral_balance w2.state s user d k v g in
                      record {
                        sum = ground (arith, e, f);
                        backed = ground (
                          arith,
                          e,
                          f,
                          positive_sum n fee d some_amount no_less e,
                          saturating_sub-covers d position.total_deposited
                              position.locked_collateral z,
                        );
                        saved = ground (arith, same m user, kept.saved, g);
                        others = λ k v o. same k v ∙ kept.others k v o;
                        logged = ground (arith, kept.quiet, g);
                        treasury =
                            ap store.get_treasury last
                            ∙ laws.debit_treasury w2.state s user d g
                            ∙ kept.treasury;
                      }
                ]
        ]
      ]

  -- What is logged of the payment: the fee to the treasury, which is told of it, or kept.
  abbrev pub fee_routed : Address → Address → Address → ℕ → ℤ → Option Address → Log → Log
  fee_routed this token user m fee none l =
      if ltb_ℤ (pos 0) fee then publish (fee_retained_no_treasury m user fee) ∷ l else l
  fee_routed this token user m fee (some treasury) l =
      if ltb_ℤ (pos 0) fee
      then collect_fee treasury this token m fee ∷ transfer token this treasury fee ∷ l
      else l

  abbrev pub large_logged : Address → ℕ → ℤ → ℕ → Log → Log
  large_logged user m n at l =
      if leb_ℤ large_withdraw_threshold n then publish (large_withdraw user m n at) ∷ l else l

  abbrev pub paid_out : Address → Address → Address → ℕ → ℤ → ℤ → ℤ → Option Address → ℕ → Log → Log
  paid_out this token user m n fee total treasury at l = large_logged user m n at (
      publish (collateral_withdrawn user m n total)
      ∷ transfer token this user n
      ∷ fee_routed this token user m fee treasury l)

  pay_withdrawal_lem :
      (token user : Address) (m : ℕ) (n fee total : ℤ) (env : Env) (w w' : World S)
      → pay_withdrawal store token user m n fee total env w ≡ ok (tt, w')
      → (w'.state ≡ w.state)
        × (w'.log
            ≡ paid_out env.this token user m n fee total
                (store.get_treasury w.state)
                env.timestamp
                w.log)
  unfolding pay_withdrawal
  pay_withdrawal_lem token user m n fee total env w w' h =
      elim (Option-cases (store.get_treasury w.state)) [
        | inl none_yet ↦ (ground arith, ground arith)
        | inr (a, e) ↦ (ground (arith, e), ground (arith, e))
      ]

  -- The position is debited, and then the fee and the amount are paid.
  pub record Paid (token user : Address) (m : ℕ) (position : Position) (n fee : ℤ) (env : Env)
      (w w' : World S) : Type 0 where
    pub total : ℤ
    pub sum : total ≡ position.total_deposited -ℤ (n +ℤ fee)
    pub backed : position.locked_collateral ≤ℤ total
    pub saved :
        laws.position_of w'.state m user ≡ some (record position { total_deposited = total })
    pub others :
        (k : ℕ) (v : Address)
        → (k ≢ m) ⊎ (v ≢ user)
        → laws.position_of w'.state k v ≡ laws.position_of w.state k v
    pub log' :
        w'.log
        ≡ paid_out env.this token user m n fee total (store.get_treasury w.state) env.timestamp (
            fee_logged m user fee
              (saturating_sub position.total_deposited position.locked_collateral)
              w.log)

  pub payment-Paid :
      (token user : Address) (m : ℕ) (position : Position) (n fee : ℤ) (env : Env) (w w' : World S)
      → pos 1 ≤ℤ n
      → pos 0 ≤ℤ fee
      → (debit_withdrawal store user m position n fee >>= pay_withdrawal store token user m n fee)
          env w
        ≡ ok (tt, w')
      → Paid token user m position n fee env w w'
  payment-Paid token user m position n fee env w w' some_amount no_less h =
      let (total, w1, first, next) =
        >>=-eq-ok (debit_withdrawal store user m position n fee)
          (pay_withdrawal store token user m n fee) env w tt w' h in
      let out =
        debit_withdrawal-Debited user m position n fee total env w w1 some_amount no_less first in
      let (same, logs) = pay_withdrawal_lem token user m n fee total env w1 w' next in
      record {
        total = total;
        sum = out.sum;
        backed = out.backed;
        saved = ap (λ s. laws.position_of s m user) same ∙ out.saved;
        others = λ k v d. ap (λ s. laws.position_of s k v) same ∙ out.others k v d;
        log' = ground (arith, logs, out.logged, out.treasury);
      }
