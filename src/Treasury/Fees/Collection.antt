-- ===== src/Treasury/Fees/Collection.antt =====
-- What a return of `collect_fee` or `withdraw_fees` has done (contracts/treasury/src/lib.rs).
use vatix_contract.Prelude.{
  ℕ, ℤ, pos, ◌≤ℤ◌, true, some, ◌∷◌, Outcome, ok, err, trap, ◌≡◌, refl, update, contains, arith,
}
use vatix_contract.Treasury.Types.{Address, TreasuryError}
use vatix_contract.Treasury.World.{Storage, Accessors, World, Env, fee_collected, publish}
use vatix_contract.Treasury.Storage.{balance_of, cumulative_of, markets_of}
use vatix_contract.Treasury.Fees.{capped_add, collect_fee}

module _ {S Mode : Type 0} (access : Accessors S Mode) where
  -- The storage after a fee of `n` in the token `t`.
  abbrev pub credited : Address → ℤ → Storage → Storage
  credited t n s = record s {
    token_balance = update s.token_balance t (some (capped_add (balance_of s t) n));
    cumulative_fees = update s.cumulative_fees t (some (capped_add (cumulative_of s t) n));
  }

  pub record Collected (c t : Address) (m : ℕ) (n : ℤ) (env : Env Mode) (w w' : World S Mode)
      : Type 0 where
    pub signed : env.authorized c ≡ true
    pub registered : contains (markets_of w.storage) c ≡ true
    pub positive : pos 1 ≤ℤ n
    pub written : w'.storage ≡ credited t n w.storage
    pub total : ℤ
    pub rest' : w'.rest ≡ access.set_total_collected (access.register_fee_token w.rest t) total
    pub log' :
        w'.log
        ≡ publish (
            fee_collected m t n
              (capped_add (balance_of w.storage t) n)
              (capped_add (cumulative_of w.storage t) n))
          ∷ w.log

  pub collect_fee-Collected :
      (c t : Address) (m : ℕ) (n : ℤ) (env : Env Mode) (w w' : World S Mode)
      → collect_fee access c t m n env w ≡ ok (tt, w')
      → Collected c t m n env w w'
  unfolding collect_fee
  collect_fee-Collected c t m n env w w' h =
      go (access.get_total_collected (credited t n w.storage) (access.register_fee_token w.rest t))
        refl
    where
      go :
          (r : Outcome TreasuryError ℤ)
          → access.get_total_collected (credited t n w.storage) (access.register_fee_token w.rest t)
            ≡ r
          → Collected c t m n env w w'
      go (ok z) e = record {
        signed = ground (arith, e);
        registered = ground (arith, e);
        positive = ground (arith, e);
        written = ground (arith, e);
        total = capped_add z n;
        rest' = ground (arith, e);
        log' = ground (arith, e);
      }
      go (err x) e = absurd (ground (arith, e))
      go trap e = absurd (ground (arith, e))
