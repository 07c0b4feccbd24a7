-- ===== src/Resolution/Lifecycle/Endings.antt =====
-- The three entry points that end a dispute make the moves `upholds` and `voids`.
use vatix_contract.Prelude.{ℕ, [], ◌≡◌, ap, ◌∙◌, inl, inr, ok, unwrap_or, arith}
use vatix_contract.Resolution.Types.{Address, finalized, voided, ResolutionCandidate}
use vatix_contract.Resolution.World.{Env, World}
use vatix_contract.Resolution.Terminal.{finalize, arbitrate_uphold_proposer, void_market}
use vatix_contract.Resolution.Terminal.Settlement.{Settles, pay_upheld-Closes, pay_voided-Closes}
use vatix_contract.Resolution.Terminal.Inversion.{
  ended, with_candidate, finalize-Ends, arbitrate_uphold_proposer-Ends, void_market-Ends,
}
use vatix_contract.Resolution.Lifecycle.{docket, file, set_challengers, Move, upholds, voids}

-- The docket after a settlement that ran on `closed`.
pub settled-docket :
    (self t k n : ℕ) (closed : ResolutionCandidate) (w w2 w' : World)
    → Settles self t k n (with_candidate closed w) w2
    → w'.storage ≡ w2.storage
    → docket w'.storage ≡ set_challengers k [] (file closed (docket w.storage))
settled-docket self t k n closed w w2 w' h e = ap docket e ∙ there
  where
    there : docket w2.storage ≡ set_challengers k [] (file closed (docket w.storage))
    there = λ i. record {
      counter = unwrap_or (h.cleared i).candidate_counter 0;
      candidate = (h.cleared i).candidate;
      by_market = (h.cleared i).candidate_by_market;
      challengers = λ j. h.challengers j i;
    }

module _ (env : Env) (w w' : World) (f : Address) (k : ℕ) (c' : ResolutionCandidate) where
  pub finalize-Move :
      finalize f k env w ≡ ok (c', w') → Move env.timestamp (docket w.storage) (docket w'.storage)
  finalize-Move h =
      let e = finalize-Ends env w w' 0 k f c' h in
      let closed = ended env finalized e.before in
      let closing =
        pay_upheld-Closes env (with_candidate closed w) e.middle 0 e.config k closed e.paid_out in
      upholds k e.before closed e.stored (inl e.may) (ground arith)
        (settled-docket env.this 0 k _ closed w e.middle w' closing.settles e.after.same)

  pub arbitrate_uphold_proposer-Move :
      arbitrate_uphold_proposer f k env w ≡ ok (c', w')
      → Move env.timestamp (docket w.storage) (docket w'.storage)
  arbitrate_uphold_proposer-Move h =
      let e = arbitrate_uphold_proposer-Ends env w w' 0 k f c' h in
      let closed = ended env finalized e.before in
      let closing =
        pay_upheld-Closes env (with_candidate closed w) e.middle 0 e.config k closed e.paid_out in
      upholds k e.before closed e.stored (inr e.may) (ground arith)
        (settled-docket env.this 0 k _ closed w e.middle w' closing.settles e.after.same)

  pub void_market-Move :
      void_market f k env w ≡ ok (c', w')
      → Move env.timestamp (docket w.storage) (docket w'.storage)
  void_market-Move h =
      let e = void_market-Ends env w w' 0 k f c' h in
      let closed = ended env voided e.before in
      let closing =
        pay_voided-Closes env (with_candidate closed w) e.middle 0 e.config k closed e.paid_out in
      voids k e.before closed e.stored e.may (ground arith)
        (settled-docket env.this 0 k _ closed w e.middle w' closing.settles e.after.same)
