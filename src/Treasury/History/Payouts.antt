-- ===== src/Treasury/History/Payouts.antt =====
-- What a return of `distribute_fees` has done (contracts/treasury/src/lib.rs).
use vatix_contract.Prelude.{
  ℕ, ◌<◌, ◌+◌, ℤ, pos, negsuc, inl, inr, true, some, List, length, Outcome, ok, err, trap, ◌≡◌,
  refl, arith,
}
use vatix_contract.Treasury.Types.{Address, TreasuryError, Share}
use vatix_contract.Treasury.World.{Accessors, World, Env}
use vatix_contract.Treasury.Storage.{balance_of}
use vatix_contract.Treasury.Laws.{IsAccessors}
use vatix_contract.Treasury.Distribution.{distribute, distribute_fees}
use vatix_contract.Treasury.Distribution.Shares.{weight, portions, portions-dust}
use vatix_contract.Treasury.Distribution.Payments.{Distributes, distribute-Distributes}
use vatix_contract.Treasury.History.Weights.{IsWeighted, Weighs}

module _ {S Mode : Type 0} (access : Accessors S Mode) (laws : IsAccessors access) where
  pub record Distributed (c t : Address) (env : Env Mode) (w w' : World S Mode) : Type 0 where
    pub signed : env.authorized c ≡ true
    pub admin : w.storage.admin ≡ some c
    pub balance : ℕ
    pub held : balance_of w.storage t ≡ pos balance
    pub full : weight (laws.stakeholders_of w.rest) ≡ 10000
    pub pays : Distributes t balance (laws.stakeholders_of w.rest) w w'
    pub dust :
        balance
        < portions balance (laws.stakeholders_of w.rest) + length (laws.stakeholders_of w.rest)

  -- The list that the call read adds up, since an empty one is refused.
  nonempty-weight : (xs : List Share) → Weighs access laws xs → 0 < length xs → weight xs ≡ 10000
  nonempty-weight xs (inl full) h = full
  nonempty-weight xs (inr empty) h = absurd (ground (arith, empty))

  -- A return of distribute_fees, for shares that add up to 10000 or are absent: the administrator
  -- signed it, there are shares, every address got its portions of the balance, each rounded down, in
  -- the token and nothing else was paid or reported, the balance is less by what was paid, and less
  -- of it is left than there are stakeholders.
  pub distribute_fees-Distributed :
      (c t : Address) (env : Env Mode) (w w' : World S Mode)
      → IsWeighted access laws w.rest
      → distribute_fees access c t env w ≡ ok (tt, w')
      → Distributed c t env w w'
  unfolding distribute_fees
  distribute_fees-Distributed c t env w w' k h = go (access.get_stakeholders w.storage w.rest) refl
    where
      at :
          (xs : List Share) (z : ℤ)
          → access.get_stakeholders w.storage w.rest ≡ ok xs
          → balance_of w.storage t ≡ z
          → Distributed c t env w w'
      at xs (negsuc n) e b = absurd (ground (arith, e, b))
      at xs (pos n) e b =
          let list = laws.get_stakeholders w.storage w.rest xs e in
          let some_one : 0 < length xs = ground (arith, e) in
          let full =
            nonempty-weight (laws.stakeholders_of w.rest) k.active
              (ground (arith, list, some_one)) in
          let paid_out : distribute t (pos n) (laws.stakeholders_of w.rest) env w ≡ ok (tt, w') =
            ground (arith, e, b, list) in
          record {
            signed = ground (arith, e);
            admin = ground (arith, e);
            balance = n;
            held = b;
            full = full;
            pays = distribute-Distributes t n (laws.stakeholders_of w.rest) env w w' full paid_out;
            dust = (portions-dust n (laws.stakeholders_of w.rest) full).1;
          }

      go :
          (r : Outcome TreasuryError (List Share))
          → access.get_stakeholders w.storage w.rest ≡ r
          → Distributed c t env w w'
      go (ok xs) e = at xs (balance_of w.storage t) e refl
      go (err x) e = absurd (ground (arith, e))
      go trap e = absurd (ground (arith, e))
