-- ===== src/Market/Custody/Settlement/Writes.antt =====
-- What a settlement in a batch or a page writes: at most the position of its user
-- (contracts/market/src/settlement.rs).
use vatix_contract.Prelude.{
  ℕ, ℤ, true, Option, none, some, List, Option-cases, inl, inr, ⊤, Outcome, ok, err, trap, ◌≡◌,
  refl, sym, subst, >>=-eq-ok, ◌>>=◌, arith,
}
use vatix_contract.Market.Types.{Address, Market, Position}
use vatix_contract.Market.Custody.Store.{Failure, MarketStore}
use vatix_contract.Market.Custody.World.{World, Env, M, peek, yes_token, no_token}
use vatix_contract.Market.Custody.Settlement.{
  validate_settlement_eligibility, compute_settlement, burn_settled_outcome_tokens,
  record_settlement, settle_computed, settle_user,
}
use vatix_contract.Market.Custody.Settlement.Visits.{Visits, done, settle, announce}

module _ {S : Type 0} (store : MarketStore S) where
  compute_settlement-quiet :
      (p : Position) (k : Market) (r : Outcome Failure ℤ) (env : Env) (w w' : World S)
      → compute_settlement store p k env w ≡ ok (r, w')
      → w'.state ≡ w.state
  unfolding compute_settlement
  compute_settlement-quiet p k r env w w' h =
      go (validate_settlement_eligibility p k) refl (store.get_position w.state p.market_id p.user)
        refl
    where
      go :
          (v : Outcome Failure ⊤)
          → validate_settlement_eligibility p k ≡ v
          → (q : Outcome Failure (Option Position))
          → store.get_position w.state p.market_id p.user ≡ q
          → w'.state ≡ w.state
      go (err x) f q e = ground (arith, e, f)
      go trap f q e = absurd (ground (arith, e, f))
      go (ok u) f (err x) e = ground (arith, e, f)
      go (ok u) f trap e = absurd (ground (arith, e, f))
      go (ok u) f (ok stored) e = elim (Option-cases (store.get_outcome_token_contract w.state)) [
        | inl none_yet ↦ ground (arith, e, f)
        | inr (c, a) ↦ elim (Option-cases (env.balance w.log c p.market_id p.user yes_token)) [
          | inl traps ↦ absurd (ground (arith, a, e, f))
          | inr (y, g) ↦ elim (Option-cases (env.balance w.log c p.market_id p.user no_token)) [
            | inl traps ↦ absurd (ground (arith, a, e, f, g))
            | inr (n, i) ↦ ground (arith, a, e, f, g, i)
          ]
        ]
      ]

  burn-quiet :
      (m : ℕ) (u : Address) (p : Position) (x : ⊤) (env : Env) (w w' : World S)
      → burn_settled_outcome_tokens store m u p env w ≡ ok (x, w')
      → w'.state ≡ w.state
  unfolding burn_settled_outcome_tokens
  burn-quiet m u p x env w w' h = elim (Option-cases (store.get_outcome_token_contract w.state)) [
    | inl none_yet ↦ ground arith
    | inr (c, e) ↦ ground (arith, e)
  ]

  -- What a property of the storage needs to be kept by the settlements of a market.
  abbrev KeptBy : (S → Type 0) → Type 0
  KeptBy P =
      (s s' : S) (m : ℕ) (u : Address) (p : Position)
      → store.set_position s m u p ≡ ok s'
      → P s
      → P s'

  settle_computed-keeps :
      (P : S → Type 0)
      → KeptBy P
      → (m : ℕ) (k : Market) (u : Address) (p : Position) (r : Outcome Failure ℤ) (paid : Option ℤ)
        (env : Env) (w w' : World S)
      → settle_computed store m k u p r env w ≡ ok (paid, w')
      → P w.state
      → P w'.state
  settle_computed-keeps P keeps m k u p (err x) paid env w w' h start =
      let same : w.state ≡ w'.state = ground arith in subst P same start
  settle_computed-keeps P keeps m k u p trap paid env w w' h start = absurd (ground arith)
  settle_computed-keeps P keeps m k u p (ok payout) paid env w w' h start =
      let (x, w1, first, rest) =
        >>=-eq-ok (burn_settled_outcome_tokens store m u settled) finish env w paid w' h in
      go w1 (subst P (sym (burn-quiet m u settled x env w w1 first)) start)
        (store.set_position w1.state m u settled) refl rest
    where
      settled : Position
      settled = record p { is_settled = true }

      finish : ⊤ → M S (Option ℤ)
      finish x = do
        written ← peek (λ s. store.set_position s m u settled)
        record_settlement store m k u payout written

      go :
          (w1 : World S)
          → P w1.state
          → (o : Outcome Failure S) → store.set_position w1.state m u settled ≡ o
          → finish tt env w1 ≡ ok (paid, w')
          → P w'.state
      go w1 now (err x) e r = let same : w1.state ≡ w'.state = ground (arith, e) in subst P same now
      go w1 now trap e r = absurd (ground (arith, e))
      go w1 now (ok s) e r =
          let same : s ≡ w'.state = ground (arith, e) in
          subst P same (keeps w1.state s m u settled e now)

  settle_user-keeps :
      (P : S → Type 0)
      → KeptBy P
      → (m : ℕ) (k : Market) (u : Address) (paid : Option ℤ) (env : Env) (w w' : World S)
      → settle_user store m k u env w ≡ ok (paid, w')
      → P w.state
      → P w'.state
  unfolding settle_user
  settle_user-keeps P keeps m k u paid env w w' h start = go (store.get_position w.state m u) refl
    where
      go : (q : Outcome Failure (Option Position)) → store.get_position w.state m u ≡ q → P w'.state
      go (err x) e = let same : w.state ≡ w'.state = ground (arith, e) in subst P same start
      go trap e = absurd (ground (arith, e))
      go (ok none) e = let same : w.state ≡ w'.state = ground (arith, e) in subst P same start
      go (ok (some p)) e =
          let tail : (compute_settlement store p k >>= settle_computed store m k u p) env w
              ≡ ok (paid, w') =
            ground (arith, e) in
          let (r, w1, first, rest) =
            >>=-eq-ok (compute_settlement store p k) (settle_computed store m k u p) env w paid w'
              tail in
          settle_computed-keeps P keeps m k u p r paid env w1 w' rest
            (subst P (sym (compute_settlement-quiet p k r env w w1 first)) start)

module _ {S : Type 0} (store : MarketStore S) (m : ℕ) where
  pub Visits-keeps :
      (P : S → Type 0)
      → KeptBy store P
      → (market : Market) (us : List Address) (ps : List (Option ℤ)) (w w' : World S)
      → Visits store m market w us ps w'
      → P w.state
      → P w'.state
  Visits-keeps P keeps market us ps w w' (done _) h = h
  Visits-keeps P keeps market us ps w w' (settle u us' paid ps' env _ w1 _ e rest) h =
      Visits-keeps P keeps market us' ps' w1 w' rest
        (settle_user-keeps store P keeps m market u paid env w w1 e h)
  Visits-keeps P keeps market us ps w w' (announce _ _ users payouts at _ _ rest) h =
      Visits-keeps P keeps market us ps _ w' rest h
