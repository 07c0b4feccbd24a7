-- ===== src/Resolution/Solvency/Endings.antt =====
-- The end of a dispute pays out no more than was locked for it (contracts/resolution/src/lib.rs).
use vatix_contract.Prelude.{
  ℕ, ◌+◌, pos_part, some, inl, inr, [], ◌≡◌, ◌⊎◌, refl, ap, ok, unwrap_or, arith,
}
use vatix_contract.Resolution.Types.{
  Address, CandidateStatus, proposed, challenged, finalized, voided, ResolutionCandidate,
  ResolutionConfig,
}
use vatix_contract.Resolution.World.{Env, World}
use vatix_contract.Resolution.Money.{bond_sum}
use vatix_contract.Resolution.Bonds.Payments.{Pays}
use vatix_contract.Resolution.Terminal.{finalize, arbitrate_uphold_proposer, void_market}
use vatix_contract.Resolution.Terminal.Settlement.{Closes, pay_upheld-Closes, pay_voided-Closes}
use vatix_contract.Resolution.Terminal.Inversion.{
  ended, with_candidate, finalize-Ends, arbitrate_uphold_proposer-Ends, void_market-Ends,
}
use vatix_contract.Resolution.Lifecycle.{docket, Keeps}
use vatix_contract.Resolution.Lifecycle.Invariant.{Inv}
use vatix_contract.Resolution.Lifecycle.Endings.{settled-docket}
use vatix_contract.Resolution.Solvency.{locked, IsSolvent, IsHost}
use vatix_contract.Resolution.Solvency.Flows.{locked-refile}

module _ (tok : ℕ → Address) (t self : Address) (env : Env) (host : IsHost self tok env)
    (w w' : World) (k : ℕ) where
  Closes-IsSolvent :
      (s : CandidateStatus) (config : ResolutionConfig) (c : ResolutionCandidate) (middle : World)
      → (s ≡ finalized) ⊎ (s ≡ voided)
      → (c.status ≡ proposed) ⊎ (c.status ≡ challenged)
      → Inv (docket w.storage)
      → w.storage.candidate k ≡ some c
      → Closes env t config k
          (ended env s c)
          (pos_part c.bond_amount + bond_sum (unwrap_or (w.storage.challengers k) []))
          (with_candidate (ended env s c) w)
          middle
      → Pays env.this t 0 middle w'
      → IsSolvent tok t self w
      → IsSolvent tok t self w'
  Closes-IsSolvent s config c middle ends live inv stored closing after h =
      let closed = ended env s c in
      let keeps : Keeps c closed = ground arith in
      let money = locked-refile tok t (docket w.storage) k c closed [] inv stored keeps in
      let books =
        ap (locked tok t)
          (settled-docket env.this t k _ closed w middle w' closing.settles after.same) in
      let named =
        host.fixed_token config.market_contract c.market_id closing.token (with_candidate closed w)
          closing.asked in
      ground (arith, host.at_self, closing.settles, after)

  module _ (f : Address) (c' : ResolutionCandidate) (inv : Inv (docket w.storage)) where
    pub finalize-IsSolvent :
        finalize f k env w ≡ ok (c', w') → IsSolvent tok t self w → IsSolvent tok t self w'
    finalize-IsSolvent h =
        let e = finalize-Ends env w w' t k f c' h in
        let closed = ended env finalized e.before in
        let closing =
          pay_upheld-Closes env (with_candidate closed w) e.middle t e.config k closed e.paid_out in
        Closes-IsSolvent finalized e.config e.before e.middle (inl refl) (inl e.may.undisputed) inv
          e.stored closing e.after

    pub arbitrate_uphold_proposer-IsSolvent :
        arbitrate_uphold_proposer f k env w ≡ ok (c', w')
        → IsSolvent tok t self w
        → IsSolvent tok t self w'
    arbitrate_uphold_proposer-IsSolvent h =
        let e = arbitrate_uphold_proposer-Ends env w w' t k f c' h in
        let closed = ended env finalized e.before in
        let closing =
          pay_upheld-Closes env (with_candidate closed w) e.middle t e.config k closed e.paid_out in
        Closes-IsSolvent finalized e.config e.before e.middle (inl refl) (inr e.may.disputed) inv
          e.stored closing e.after

    pub void_market-IsSolvent :
        void_market f k env w ≡ ok (c', w') → IsSolvent tok t self w → IsSolvent tok t self w'
    void_market-IsSolvent h =
        let e = void_market-Ends env w w' t k f c' h in
        let closed = ended env voided e.before in
        let closing =
          pay_voided-Closes env (with_candidate closed w) e.middle t e.config k closed e.paid_out in
        Closes-IsSolvent voided e.config e.before e.middle (inr refl) (inr e.may.disputed) inv
          e.stored closing e.after
