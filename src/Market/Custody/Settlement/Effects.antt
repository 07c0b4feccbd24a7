-- ===== src/Market/Custody/Settlement/Effects.antt =====
-- What a return of `settle_position` has done (contracts/market/src/settlement.rs).
use vatix_contract.Prelude.{
  ℕ, ◌+◌, ℤ, pos, ◌≤ℤ◌, true, false, some, ok, ◌≡◌, ◌≢◌, ◌⊎◌, ◌∙◌, sym, ap, ◌==◌, ◌&&◌, >>=-eq-ok,
  ◌>>=◌, ◌>>◌, pure, arith,
}
use vatix_contract.Market.Types.{Address, Market, Position}
use vatix_contract.Market.Custody.Store.{MarketStore, IsMarketStore}
use vatix_contract.Market.Custody.World.{World, Env, M, Event, position_updated, position_settled}
use vatix_contract.Market.Custody.Ledger.{amount_if, total_of, paid_in}
use vatix_contract.Market.Custody.Access.{save_position-Saved}
use vatix_contract.Market.Custody.Deposit.{save_position}
use vatix_contract.Market.Custody.Settlement.{
  is_resolved, payout_of, burn_settled_outcome_tokens, pay_payout, admit_settlement,
  execute_settlement, settle_position,
}
use vatix_contract.Market.Custody.Settlement.Steps.{
  execute_settlement-Computed, admit_settlement_lem, pay_off_lem,
}

module _ {S : Type 0} (store : MarketStore S) (laws : IsMarketStore store) where
  -- What a return of `settle_position` has done.
  pub record Settled (user : Address) (m : ℕ) (payout : ℤ) (env : Env) (w w' : World S)
      : Type 0 where
    pub market : Market
    pub position : Position
    pub signed : env.authorized user ≡ true
    pub listed : store.get_market w.state m ≡ ok (some market)
    pub held : laws.position_of w.state m user ≡ some position
    pub resolved : is_resolved market.status ≡ true
    pub unsettled : position.is_settled ≡ false
    pub exact : payout ≡ payout_of position market.result
    pub sign : pos 0 ≤ℤ payout
    pub saved : laws.position_of w'.state m user ≡ some (record position { is_settled = true })
    pub others :
        (k : ℕ) (v : Address)
        → (k ≢ m) ⊎ (v ≢ user)
        → laws.position_of w'.state k v ≡ laws.position_of w.state k v
    pub events :
        (f : Event → ℕ)
        → total_of f w'.log
          ≡ f (position_settled position.market_id position.user payout env.timestamp)
            + (f (
                  position_updated position.market_id position.user position.yes_shares
                    position.no_shares
                    (pos 0))
                + total_of f w.log)
    pub paid :
        (t a : Address)
        → paid_in t a w'.log
          ≡ amount_if (market.collateral_token == t && user == a) payout + paid_in t a w.log

  -- A return of settle_position: the user signed, the market is resolved, the position was not
  -- settled and now is, the payout is its winning shares, or its deposits where no outcome won, and
  -- not negative; exactly it went to the user in the market's token and nothing else was paid, and no
  -- other position has changed.
  pub settle_position-Settled :
      (user : Address) (m : ℕ) (payout : ℤ) (env : Env) (w w' : World S)
      → settle_position store user m env w ≡ ok (payout, w')
      → Settled user m payout env w w'
  unfolding settle_position
  settle_position-Settled user m payout env w w' h =
      let ((market, p), w1, first, next) =
        >>=-eq-ok (admit_settlement store user m) both env w payout w' h in
      admitted market p w1 first next
    where
      off : Market → Position → ℤ → M S ℤ
      off market p n = do
        burn_settled_outcome_tokens store m user (record p { is_settled = true })
        pay_payout store market user n
        pure n

      write : Market → Position → ℤ → M S ℤ
      write market p n =
          save_position store m user (record p { is_settled = true }) >> off market p n

      settle : Market → Position → M S ℤ
      settle market p = execute_settlement store p market >>= write market p

      both : (Market × Position) → M S ℤ
      both x = settle x.0 x.1

      executed :
          (market : Market) (p : Position)
          → env.authorized user ≡ true
          → store.get_market w.state m ≡ ok (some market)
          → store.get_position w.state m user ≡ ok (some p)
          → (n : ℤ) (w2 : World S) → execute_settlement store p market env w ≡ ok (n, w2)
          → write market p n env w2 ≡ ok (payout, w')
          → Settled user m payout env w w'
      executed market p signed listed stored n w2 second rest =
          let (c, logs) = execute_settlement-Computed store p market n env w w2 second in
          let q : Position = record p { is_settled = true } in
          let (t, w3, third, last) =
            >>=-eq-ok (save_position store m user q) (λ t. off market p n) env w2 payout w' rest in
          let kept = save_position-Saved store laws m user q env w2 w3 third in
          let (is, same, sums, pays) =
            pay_off_lem store market m user q n payout env w3 w' c.sign last in
          let unmoved : w2.state ≡ w.state = ground (arith, logs) in
          record {
            market = market;
            position = p;
            signed = signed;
            listed = listed;
            held = sym (laws.get_position w.state m user (some p) stored);
            resolved = c.resolved;
            unsettled = c.unsettled;
            exact = is ∙ c.exact;
            sign = rw is c.sign;
            saved = ap (λ s. laws.position_of s m user) same ∙ kept.saved;
            others = λ k v d.
                ap (λ s. laws.position_of s k v) same
                ∙ kept.others k v d
                ∙ ap (λ s. laws.position_of s k v) unmoved;
            events = λ f. ground (arith, sums f, kept.quiet, logs, is);
            paid = λ t a. ground (arith, pays t a, kept.quiet, logs, is);
          }

      admitted :
          (market : Market) (p : Position) (w1 : World S)
          → admit_settlement store user m env w ≡ ok ((market, p), w1)
          → settle market p env w1 ≡ ok (payout, w')
          → Settled user m payout env w w'
      admitted market p w1 first next =
          let (signed, listed, stored, same) =
            admit_settlement_lem store user m market p env w w1 first in
          let here : settle market p env w ≡ ok (payout, w') =
            ap (λ x. settle market p env x) (sym same) ∙ next in
          let (n, w2, second, rest) =
            >>=-eq-ok (execute_settlement store p market) (write market p) env w payout w' here in
          executed market p signed listed stored n w2 second rest
