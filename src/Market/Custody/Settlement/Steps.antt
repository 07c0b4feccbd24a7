-- ===== src/Market/Custody/Settlement/Steps.antt =====
-- What the steps of `settle_position` have done (contracts/market/src/settlement.rs).
use vatix_contract.Prelude.{
  ℕ, ◌+◌, ℤ, pos, ◌≤ℤ◌, true, false, Option, none, some, Option-cases, inl, inr, ◌∷◌, ⊤, Outcome,
  ok, err, trap, ◌≡◌, ◌∙◌, refl, sym, ap, ◌==◌, ◌&&◌, >>=-eq-ok, ◌>>=◌, ◌>>◌, pure, propagate,
  arith,
}
use vatix_contract.Market.Types.{Address, Market, Position}
use vatix_contract.Market.Custody.Store.{Failure, MarketStore}
use vatix_contract.Market.Custody.World.{
  World, Env, M, Event, publish, emit, now, position_updated, position_settled, yes_token, no_token,
}
use vatix_contract.Market.Custody.Ledger.{amount_if, total_of, paid_in}
use vatix_contract.Market.Custody.Parity.{parity, report_mismatch}
use vatix_contract.Market.Custody.Settlement.{
  is_resolved, payout_of, payout_after, compute_settlement, burn_settled_outcome_tokens, pay_payout,
  admit_settlement, execute_settlement,
}

module _ {S : Type 0} (store : MarketStore S) where
  -- The position may be settled, and this is what it is paid; nothing is written yet.
  pub record Computed (p : Position) (market : Market) (payout : ℤ) (env : Env) (w w' : World S)
      : Type 0 where
    pub resolved : is_resolved market.status ≡ true
    pub unsettled : p.is_settled ≡ false
    pub exact : payout ≡ payout_of p market.result
    pub sign : pos 0 ≤ℤ payout
    pub same : w' ≡ w

  parity-same :
      (m : ℕ) (u : Address) (stored : Option Position) (env : Env) (w w' : World S)
      → (parity store m u stored >>= report_mismatch store m u) env w ≡ ok (ok tt, w')
      → w' ≡ w
  parity-same m u stored env w w' h =
      elim (Option-cases (store.get_outcome_token_contract w.state)) [
        | inl none_yet ↦ ground arith
        | inr (c, e) ↦ elim (Option-cases (env.balance w.log c m u yes_token)) [
          | inl traps ↦ absurd (ground (arith, e))
          | inr (y, f) ↦ elim (Option-cases (env.balance w.log c m u no_token)) [
            | inl traps ↦ absurd (ground (arith, e, f))
            | inr (n, g) ↦ ground (arith, e, f, g)
          ]
        ]
      ]

  pub compute_settlement-Computed :
      (p : Position) (market : Market) (payout : ℤ) (env : Env) (w w' : World S)
      → compute_settlement store p market env w ≡ ok (ok payout, w')
      → Computed p market payout env w w'
  unfolding compute_settlement
  compute_settlement-Computed p market payout env w w' h =
      go (store.get_position w.state p.market_id p.user) refl
    where
      after : Outcome Failure ⊤ → M S (Outcome Failure ℤ)
      after c = pure (payout_after store p market c)

      finish :
          (c : Outcome Failure ⊤) (w1 : World S)
          → (c ≡ ok tt → w1 ≡ w)
          → is_resolved market.status ≡ true
          → p.is_settled ≡ false
          → after c env w1 ≡ ok (ok payout, w')
          → Computed p market payout env w w'
      finish (ok tt) w1 same resolved unsettled r = record {
        resolved = resolved;
        unsettled = unsettled;
        exact = ground arith;
        sign = ground arith;
        same = ground (arith, same refl);
      }
      finish (err x) w1 same resolved unsettled r = absurd (ground arith)
      finish trap w1 same resolved unsettled r = absurd (ground arith)

      go :
          (r : Outcome Failure (Option Position))
          → store.get_position w.state p.market_id p.user ≡ r
          → Computed p market payout env w w'
      go (ok stored) e =
          let check =
            parity store p.market_id p.user stored >>= report_mismatch store p.market_id p.user in
          let tail : (check >>= after) env w ≡ ok (ok payout, w') = ground (arith, e) in
          let (c, w1, first, next) = >>=-eq-ok check after env w (ok payout) w' tail in
          finish c w1
            (λ k. parity-same p.market_id p.user stored env w w1 (first ∙ ap (λ x. ok (x, w1)) k))
            (ground (arith, e)) (ground (arith, e)) next
      go (err x) e = absurd (ground (arith, e))
      go trap e = absurd (ground (arith, e))

  pub execute_settlement-Computed :
      (p : Position) (market : Market) (payout : ℤ) (env : Env) (w w' : World S)
      → execute_settlement store p market env w ≡ ok (payout, w')
      → Computed p market payout env w w
        × (w' ≡ record w {
          log =
              publish (position_settled p.market_id p.user payout env.timestamp)
              ∷ publish (position_updated p.market_id p.user p.yes_shares p.no_shares (pos 0))
              ∷ w.log;
        })
  execute_settlement-Computed p market payout env w w' h =
      let (result, w1, first, next) =
        >>=-eq-ok (compute_settlement store p market) tell env w payout w' h in
      told result w1 first next
    where
      tell : Outcome Failure ℤ → M S ℤ
      tell result = do
        n ← propagate result
        emit (position_updated p.market_id p.user p.yes_shares p.no_shares (pos 0))
        settled_at ← now
        emit (position_settled p.market_id p.user n settled_at)
        pure n

      told :
          (r : Outcome Failure ℤ) (w1 : World S)
          → compute_settlement store p market env w ≡ ok (r, w1)
          → tell r env w1 ≡ ok (payout, w')
          → Computed p market payout env w w
            × (w' ≡ record w {
              log =
                  publish (position_settled p.market_id p.user payout env.timestamp)
                  ∷ publish (position_updated p.market_id p.user p.yes_shares p.no_shares (pos 0))
                  ∷ w.log;
            })
      told (ok n) w1 first next =
          let c = compute_settlement-Computed p market n env w w1 first in
          let is : n ≡ payout = ground arith in
          (
            record {
              resolved = c.resolved;
              unsettled = c.unsettled;
              exact = sym is ∙ c.exact;
              sign = rw (sym is) c.sign;
              same = refl;
            },
            ground (arith, c.same),
          )
      told (err x) w1 first next = absurd (ground arith)
      told trap w1 first next = absurd (ground arith)

  pub admit_settlement_lem :
      (user : Address) (m : ℕ) (market : Market) (p : Position) (env : Env) (w w' : World S)
      → admit_settlement store user m env w ≡ ok ((market, p), w')
      → (env.authorized user ≡ true)
        × (store.get_market w.state m ≡ ok (some market))
        × (store.get_position w.state m user ≡ ok (some p))
        × (w' ≡ w)
  unfolding admit_settlement
  admit_settlement_lem user m market p env w w' h =
      go (store.get_market w.state m) refl (store.get_position w.state m user) refl
    where
      go :
          (r : Outcome Failure (Option Market))
          → store.get_market w.state m ≡ r
          → (q : Outcome Failure (Option Position)) → store.get_position w.state m user ≡ q
          → (env.authorized user ≡ true)
            × (store.get_market w.state m ≡ ok (some market))
            × (store.get_position w.state m user ≡ ok (some p))
            × (w' ≡ w)
      go (ok (some k)) e (ok (some x)) f =
          (ground (arith, e, f), ground (arith, e, f), ground (arith, e, f), ground (arith, e, f))
      go (ok (some k)) e (ok none) f = absurd (ground (arith, e, f))
      go (ok (some k)) e (err x) f = absurd (ground (arith, e, f))
      go (ok (some k)) e trap f = absurd (ground (arith, e, f))
      go (ok none) e q f = absurd (ground (arith, e))
      go (err x) e q f = absurd (ground (arith, e))
      go trap e q f = absurd (ground (arith, e))

  -- The burns and the payment leave the storage alone, and add one transfer to the log.
  pub pay_off_lem :
      (market : Market) (m : ℕ) (user : Address) (p : Position) (payout z : ℤ) (env : Env)
      (w w' : World S)
      → pos 0 ≤ℤ payout
      → (do
        burn_settled_outcome_tokens store m user p
        pay_payout store market user payout
        pure payout)
          env w
        ≡ ok (z, w')
      → (z ≡ payout)
        × (w'.state ≡ w.state)
        × ((f : Event → ℕ) → total_of f w'.log ≡ total_of f w.log)
        × ((t a : Address)
            → paid_in t a w'.log
              ≡ amount_if (market.collateral_token == t && user == a) payout + paid_in t a w.log)
  unfolding burn_settled_outcome_tokens
  pay_off_lem market m user p payout z env w w' sign h =
      elim (Option-cases (store.get_outcome_token_contract w.state)) [
        | inl none_yet ↦ (ground arith, ground arith, λ f. ground arith, λ t a. ground arith)
        | inr (c, e) ↦
            (ground (arith, e), ground (arith, e), λ f. ground (arith, e), λ t a. ground (arith, e))
      ]
