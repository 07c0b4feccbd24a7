-- ===== src/Market/Custody/Deposit/Effects.antt =====
-- What a return of `deposit_collateral` has done (contracts/market/src/deposit.rs).
use vatix_contract.Prelude.{
  ℕ, ◌<◌, ℤ, pos, ◌≤ℤ◌, ◌+ℤ◌, true, false, Option, none, some, Option-cases, inl, inr, ◌∷◌, Outcome,
  ok, err, trap, ◌≡◌, ◌≢◌, ◌⊎◌, ◌∙◌, refl, ap, checked_add, >>=-eq-ok, ◌>>=◌, ◌>>◌, pure, ok_or,
  ask, arith,
}
use vatix_contract.Market.Types.{Address, Market, Position}
use vatix_contract.Market.Validation.{validate_collateral_amount}
use vatix_contract.Market.Custody.Store.{Failure, MarketStore, IsMarketStore}
use vatix_contract.Market.Custody.World.{
  World, Env, publish, collateral_deposited, transfer, call, emit, poke, now,
}
use vatix_contract.Market.Custody.Access.{position_in, load_position_lem, save_answer-Saved}
use vatix_contract.Market.Types.{arithmetic_overflow}
use vatix_contract.Market.Custody.Store.{declared}
use vatix_contract.Market.Custody.Deposit.{
  load_position, save_position, add_deposit, is_active, admit_deposit, credit_deposit,
  deposit_collateral, release,
}

module _ {S : Type 0} (store : MarketStore S) where
  -- The guards have let the deposit through, and the lock is taken.
  pub record Admitted (user : Address) (m : ℕ) (n : ℤ) (market : Market) (env : Env)
      (w w' : World S) : Type 0 where
    pub signed : env.authorized user ≡ true
    pub listed : store.get_market (store.set_deposit_locked w.state true) m ≡ ok (some market)
    pub unlocked : store.is_deposit_locked w.state ≡ false
    pub positive : pos 1 ≤ℤ n
    pub running : is_active market.status ≡ true
    pub unclosed : market.closed_to_deposits ≡ false
    pub early : env.timestamp < market.end_time
    pub locked : w' ≡ record w { state = store.set_deposit_locked w.state true }

  admit_deposit-Admitted :
      (user : Address) (m : ℕ) (n : ℤ) (market : Market) (env : Env) (w w' : World S)
      → admit_deposit store user m n env w ≡ ok (market, w')
      → Admitted user m n market env w w'
  unfolding admit_deposit validate_collateral_amount
  admit_deposit-Admitted user m n market env w w' h =
      go (store.get_market (store.set_deposit_locked w.state true) m) refl
    where
      go :
          (r : Outcome Failure (Option Market))
          → store.get_market (store.set_deposit_locked w.state true) m ≡ r
          → Admitted user m n market env w w'
      go (ok none) e = absurd (ground (arith, e))
      go (ok (some k)) e = record {
        signed = ground (arith, e);
        listed = ground (arith, e);
        unlocked = ground (arith, e);
        positive = ground (arith, e);
        running = ground (arith, e);
        unclosed = ground (arith, e);
        early = ground (arith, e);
        locked = ground (arith, e);
      }
      go (err x) e = absurd (ground (arith, e))
      go trap e = absurd (ground (arith, e))

module _ {S : Type 0} (store : MarketStore S) (laws : IsMarketStore store) where
  -- Only the deposits of the user's position have changed, by `n`.
  pub record Credited (user : Address) (m : ℕ) (n total : ℤ) (w w' : World S) : Type 0 where
    pub sum : total ≡ (position_in store laws w.state m user).total_deposited +ℤ n
    pub saved :
        laws.position_of w'.state m user
        ≡ some (record (position_in store laws w.state m user) { total_deposited = total })
    pub others :
        (k : ℕ) (v : Address)
        → (k ≢ m) ⊎ (v ≢ user)
        → laws.position_of w'.state k v ≡ laws.position_of w.state k v
    pub quiet : w'.log ≡ w.log

  add_deposit-Credited :
      (user : Address) (m : ℕ) (n total : ℤ) (env : Env) (w w' : World S)
      → add_deposit store user m n env w ≡ ok (total, w')
      → Credited user m n total w w'
  unfolding add_deposit
  add_deposit-Credited user m n total env w w' h =
      let raise = λ (position : Position). do
        total_deposited ←
            ok_or (checked_add position.total_deposited n) (declared arithmetic_overflow)
        save_position store m user (record position { total_deposited = total_deposited })
        pure total_deposited
      in let (p, w1, first, next) = >>=-eq-ok (load_position store m user) raise env w total w' h in
        let (held, same) = load_position_lem store laws m user p env w w1 first in
        elim (Option-cases (checked_add p.total_deposited n)) [
          | inl overflows ↦ absurd (ground arith)
          | inr (z, e) ↦
              let q : Position = record p { total_deposited = z } in
              let tail : (save_position store m user q >> pure z) env w ≡ ok (total, w') =
                ground (arith, e, same) in
              let (answer, kept) = save_answer-Saved store laws m user q z total env w w' tail in
              record {
                sum = ground (arith, e, held, answer);
                saved = ground (arith, kept.saved, answer, held);
                others = kept.others;
                quiet = kept.quiet;
              }
        ]

  credit_deposit-Credited :
      (user : Address) (m : ℕ) (n total : ℤ) (env : Env) (w w' : World S)
      → credit_deposit store user m n env w ≡ ok (total, w')
      → Credited user m n total w w'
  unfolding credit_deposit
  credit_deposit-Credited user m n total env w w' h =
      elim (Option-cases (checked_add (store.get_collateral_balance w.state user) n)) [
        | inl overflows ↦ absurd (ground arith)
        | inr (b, e) ↦
            let w1 : World S = record w { state = store.set_collateral_balance w.state user b } in
            let finish = λ (total_deposited : ℤ). do
              poke (λ s. store.add_market_participant s m user)
              at ← now
              poke (λ s. store.set_last_deposit_time s m user at)
              pure total_deposited
            in let tail : (add_deposit store user m n >>= finish) env w1 ≡ ok (total, w') =
                ground (arith, e) in
              let (z, w2, first, next) =
                >>=-eq-ok (add_deposit store user m n) finish env w1 total w' tail in
              let added = add_deposit-Credited user m n z env w1 w2 first in
              let s2 = store.add_market_participant w2.state m user in
              let last : w'.state ≡ store.set_last_deposit_time s2 m user env.timestamp =
                ground arith in
              let kept = λ (k : ℕ) (v : Address).
                ap (λ s. laws.position_of s k v) last
                ∙ laws.set_last_deposit_time s2 m user env.timestamp k v
                ∙ laws.add_market_participant w2.state m user k v in
              let same = λ (k : ℕ) (v : Address). laws.set_collateral_balance w.state user b k v in
              record {
                sum = ground (arith, added.sum, same m user);
                saved = ground (arith, kept m user, added.saved, same m user);
                others = λ k v d. kept k v ∙ added.others k v d ∙ same k v;
                quiet = ground (arith, added.quiet);
              }
      ]

  -- What a return of `deposit_collateral` has done.
  pub record Deposited (user : Address) (m : ℕ) (n : ℤ) (env : Env) (w w' : World S) : Type 0 where
    pub market : Market
    pub total : ℤ
    pub listed : store.get_market (store.set_deposit_locked w.state true) m ≡ ok (some market)
    pub signed : env.authorized user ≡ true
    pub unlocked : store.is_deposit_locked w.state ≡ false
    pub running : is_active market.status ≡ true
    pub unclosed : market.closed_to_deposits ≡ false
    pub early : env.timestamp < market.end_time
    pub positive : pos 1 ≤ℤ n
    pub sum : total ≡ (position_in store laws w.state m user).total_deposited +ℤ n
    pub saved :
        laws.position_of w'.state m user
        ≡ some (record (position_in store laws w.state m user) { total_deposited = total })
    pub others :
        (k : ℕ) (v : Address)
        → (k ≢ m) ⊎ (v ≢ user)
        → laws.position_of w'.state k v ≡ laws.position_of w.state k v
    pub log' :
        w'.log
        ≡ publish (collateral_deposited user m n total)
          ∷ transfer market.collateral_token user env.this n
          ∷ w.log

  -- A return of deposit_collateral: the user signed, no deposit was under way, the market is active,
  -- open to deposits and not expired, the amount is positive, exactly it went from the user to the
  -- contract in the market's token, the position's deposits are more by it, and no other position has
  -- changed.
  pub deposit_collateral-Deposited :
      (user : Address) (m : ℕ) (n : ℤ) (env : Env) (w w' : World S)
      → deposit_collateral store user m n env w ≡ ok (tt, w')
      → Deposited user m n env w w'
  unfolding deposit_collateral
  deposit_collateral-Deposited user m n env w w' h =
      let pay = λ (market : Market) (total : ℤ). do
        contract_address ← ask (λ env. env.this)
        call (transfer market.collateral_token user contract_address n)
        emit (collateral_deposited user m n total)
        release store
      in let rest = λ (market : Market). credit_deposit store user m n >>= pay market in
        let (market, w1, first, next) =
          >>=-eq-ok (admit_deposit store user m n) rest env w tt w' h in
        let (total, w2, second, last) =
          >>=-eq-ok (credit_deposit store user m n) (pay market) env w1 tt w' next in
        let admitted = admit_deposit-Admitted store user m n market env w w1 first in
        let credited = credit_deposit-Credited user m n total env w1 w2 second in
        let s1 = store.set_deposit_locked w.state true in
        let before : w1.state ≡ s1 = ground (arith, admitted.locked) in
        let after : w'.state ≡ store.set_deposit_locked w2.state false = ground arith in
        let opening = λ (k : ℕ) (v : Address).
          ap (λ s. laws.position_of s k v) before ∙ laws.set_deposit_locked w.state true k v in
        let closing = λ (k : ℕ) (v : Address).
          ap (λ s. laws.position_of s k v) after ∙ laws.set_deposit_locked w2.state false k v in
        record {
          market = market;
          total = total;
          listed = admitted.listed;
          signed = admitted.signed;
          unlocked = admitted.unlocked;
          running = admitted.running;
          unclosed = admitted.unclosed;
          early = admitted.early;
          positive = admitted.positive;
          sum = ground (arith, credited.sum, opening m user);
          saved = ground (arith, closing m user, credited.saved, opening m user);
          others = λ k v d. closing k v ∙ credited.others k v d ∙ opening k v;
          log' = ground (arith, credited.quiet, admitted.locked);
        }
