-- ===== src/Treasury/Distribution/Frame.antt =====
-- What `distribute_fees` leaves alone, whatever the shares (contracts/treasury/src/lib.rs).
use vatix_contract.Prelude.{
  ℤ, pos, List, [], ok, err, trap, Outcome, some, Option-cases, inl, inr, ◌≡◌, ◌∙◌, refl, update,
  length, checked_sub, ◌>>◌, >>=-eq-ok, arith,
}
use vatix_contract.Treasury.Types.{Address, TreasuryError, Share}
use vatix_contract.Treasury.World.{Accessors, World, Env}
use vatix_contract.Treasury.Storage.{balance_of}
use vatix_contract.Treasury.Events.{emit_fees_distributed}
use vatix_contract.Treasury.Distribution.{compute_payouts, pay_each, distribute, distribute_fees}
use vatix_contract.Treasury.Distribution.Payments.{pay_each-PaysOut}

module _ {S Mode : Type 0} where
  -- Only the balance of the token is written.
  pub record Touches (token : Address) (w w' : World S Mode) : Type 0 where
    pub remaining : ℤ
    pub written :
        w'.storage
        ≡ record w.storage { token_balance = update w.storage.token_balance token (some remaining) }
    pub rest : w'.rest ≡ w.rest

  distribute-Touches :
      (token : Address) (z : ℤ) (xs : List Share) (env : Env Mode) (w w' : World S Mode)
      → distribute token z xs env w ≡ ok (tt, w')
      → Touches token w w'
  unfolding distribute
  distribute-Touches token z xs env w w' h = elim (Option-cases (compute_payouts z xs [] (pos 0))) [
    | inl overflows ↦ absurd (ground arith)
    | inr ((ps, d), e) ↦ elim (Option-cases (checked_sub z d)) [
      | inl overflows ↦ absurd (ground arith)
      | inr (r, f) ↦
          let w1 : World S Mode = record w {
            storage = record w.storage {
              token_balance = update w.storage.token_balance token (some r);
            };
          } in
          let told = emit_fees_distributed token d r (length xs) in
          let tail : (pay_each token env.this ps >> told) env w1 ≡ ok (tt, w') =
            ground (arith, e, f) in
          let (u, w2, first, next) =
            >>=-eq-ok (pay_each token env.this ps) (λ u. told) env w1 tt w' tail in
          let pays = pay_each-PaysOut token env.this ps env w1 w2 first in
          let back : w'.storage ≡ w2.storage = ground arith in
          record { remaining = r; written = back ∙ pays.same; rest = ground (arith, pays.rest) }
    ]
  ]

module _ {S Mode : Type 0} (access : Accessors S Mode) where
  pub distribute_fees-Touches :
      (c t : Address) (env : Env Mode) (w w' : World S Mode)
      → distribute_fees access c t env w ≡ ok (tt, w')
      → Touches t w w'
  unfolding distribute_fees
  distribute_fees-Touches c t env w w' h = go (access.get_stakeholders w.storage w.rest) refl
    where
      go :
          (r : Outcome TreasuryError (List Share))
          → access.get_stakeholders w.storage w.rest ≡ r
          → Touches t w w'
      go (ok xs) e = distribute-Touches t (balance_of w.storage t) xs env w w' (ground (arith, e))
      go (err x) e = absurd (ground (arith, e))
      go trap e = absurd (ground (arith, e))
