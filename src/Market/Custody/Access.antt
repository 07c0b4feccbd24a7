-- ===== src/Market/Custody/Access.antt =====
-- What a read and a write of a position answer (contracts/market/src/deposit.rs, withdraw.rs).
use vatix_contract.Prelude.{
  ℕ, ℤ, pure, ◌>>◌, >>=-eq-ok, Option, none, some, Outcome, ok, err, trap, ◌≡◌, ◌≢◌, ◌⊎◌, ◌∙◌, refl,
  ap, unwrap_or, arith,
}
use vatix_contract.Market.Types.{Address, Market, Position}
use vatix_contract.Market.Positions.{empty_position}
use vatix_contract.Market.Custody.Store.{Failure, MarketStore, IsMarketStore}
use vatix_contract.Market.Custody.World.{World, Env}
use vatix_contract.Market.Custody.Deposit.{load_market, load_position, save_position}

module _ {S : Type 0} (store : MarketStore S) where
  pub load_market_lem :
      (m : ℕ) (market : Market) (env : Env) (w w' : World S)
      → load_market store m env w ≡ ok (market, w')
      → (store.get_market w.state m ≡ ok (some market)) × (w' ≡ w)
  load_market_lem m market env w w' h = go (store.get_market w.state m) refl
    where
      go :
          (r : Outcome Failure (Option Market))
          → store.get_market w.state m ≡ r
          → (store.get_market w.state m ≡ ok (some market)) × (w' ≡ w)
      go (ok none) e = absurd (ground (arith, e))
      go (ok (some k)) e = (ground (arith, e), ground (arith, e))
      go (err x) e = absurd (ground (arith, e))
      go trap e = absurd (ground (arith, e))

module _ {S : Type 0} (store : MarketStore S) (laws : IsMarketStore store) where
  -- The position of a user, who has an empty one at first.
  abbrev pub position_in : S → ℕ → Address → Position
  position_in s m u = unwrap_or (laws.position_of s m u) (empty_position m u)

  pub load_position_lem :
      (m : ℕ) (u : Address) (p : Position) (env : Env) (w w' : World S)
      → load_position store m u env w ≡ ok (p, w')
      → (p ≡ position_in w.state m u) × (w' ≡ w)
  load_position_lem m u p env w w' h = go (store.get_position w.state m u) refl
    where
      go :
          (r : Outcome Failure (Option Position))
          → store.get_position w.state m u ≡ r
          → (p ≡ position_in w.state m u) × (w' ≡ w)
      go (ok q) e =
          let held = laws.get_position w.state m u q e in
          (ground (arith, e, held), ground (arith, e))
      go (err x) e = absurd (ground (arith, e))
      go trap e = absurd (ground (arith, e))

  -- The position is what was written, every other one and the log are as before.
  pub record Saved (m : ℕ) (u : Address) (p : Position) (w w' : World S) : Type 0 where
    pub saved : laws.position_of w'.state m u ≡ some p
    pub others :
        (k : ℕ) (v : Address)
        → (k ≢ m) ⊎ (v ≢ u)
        → laws.position_of w'.state k v ≡ laws.position_of w.state k v
    pub quiet : w'.log ≡ w.log
    pub treasury : store.get_treasury w'.state ≡ store.get_treasury w.state

  pub save_position-Saved :
      (m : ℕ) (u : Address) (p : Position) (env : Env) (w w' : World S)
      → save_position store m u p env w ≡ ok (tt, w')
      → Saved m u p w w'
  save_position-Saved m u p env w w' h = go (store.set_position w.state m u p) refl
    where
      go : (r : Outcome Failure S) → store.set_position w.state m u p ≡ r → Saved m u p w w'
      go (ok s) e =
          let same : w'.state ≡ s = ground (arith, e) in
          record {
            saved = ap (λ x. laws.position_of x m u) same ∙ laws.set_position w.state s m u p e;
            others = λ k v d.
                ap (λ x. laws.position_of x k v) same
                ∙ laws.set_position_other w.state s m k u v p e d;
            quiet = ground (arith, e);
            treasury = ap store.get_treasury same ∙ laws.set_position_treasury w.state s m u p e;
          }
      go (err x) e = absurd (ground (arith, e))
      go trap e = absurd (ground (arith, e))

  -- A write that is followed by an answer.
  pub save_answer-Saved :
      (m : ℕ) (u : Address) (p : Position) (z answer : ℤ) (env : Env) (w w' : World S)
      → (save_position store m u p >> pure z) env w ≡ ok (answer, w')
      → (answer ≡ z) × Saved m u p w w'
  save_answer-Saved m u p z answer env w w' h =
      let (t, w1, first, next) =
        >>=-eq-ok (save_position store m u p) (λ t. pure z) env w answer w' h in
      let kept = save_position-Saved m u p env w w1 first in
      (
        ground arith,
        record {
          saved = ground (arith, kept.saved);
          others = λ k v d. ground (arith, kept.others k v d);
          quiet = ground (arith, kept.quiet);
          treasury = ground (arith, kept.treasury);
        },
      )
