-- ===== src/Resolution/Timelock/Slots.antt =====
-- What each call does to the slots of pending changes.
use vatix_contract.Prelude.{
  ℕ, ◌+◌, none, some, ◌≡◌, ◌⊎◌, inl, inr, refl, ok, pure, >>=-eq-ok, arith,
}
use vatix_contract.Resolution.Types.{Address, ResolutionCandidate}
use vatix_contract.Resolution.World.{Env, World}
use vatix_contract.Resolution.Guards.{address_timelock_seconds}
use vatix_contract.Resolution.Admin
use vatix_contract.Resolution.Candidates
use vatix_contract.Resolution.Terminal
use vatix_contract.Resolution.Terminal.Settlement.{pay_upheld-Closes, pay_voided-Closes}
use vatix_contract.Resolution.Terminal.Inversion.{
  ended, with_candidate, finalize-Ends, arbitrate_uphold_proposer-Ends, void_market-Ends,
}
use vatix_contract.Resolution.Types.{finalized, voided}
use vatix_contract.Resolution.History.{
  Request, initialize, set_default_challenge_window, propose_factory, execute_factory,
  cancel_factory, propose_market_contract, execute_market_contract, cancel_market_contract,
  set_market_contract, propose, propose_v2, challenge, appeal, finalize, arbitrate_uphold_proposer,
  void_market, deposit_collateral, slash_collateral, propose_treasury, execute_treasury,
  cancel_treasury, set_emergency_mode, pause, unpause, exec,
}
use vatix_contract.Resolution.Timelock.{
  Slot, factory, market_contract, treasury, pending, proposes, SamePending,
}

module _ (env : Env) (w w' : World) where
  finalize-SamePending :
      (f : Address) (k : ℕ) (c : ResolutionCandidate)
      → Terminal.finalize f k env w ≡ ok (c, w')
      → SamePending w w'
  finalize-SamePending f k c h =
      let e = finalize-Ends env w w' 0 k f c h in
      let done = ended env finalized e.before in
      let paid =
        pay_upheld-Closes env (with_candidate done w) e.middle 0 e.config k done e.paid_out in
      record {
        same_factory = ground (arith, paid.settles.cleared, e.after.same);
        same_market = ground (arith, paid.settles.cleared, e.after.same);
        same_treasury = ground (arith, paid.settles.cleared, e.after.same);
      }

  arbitrate_uphold_proposer-SamePending :
      (f : Address) (k : ℕ) (c : ResolutionCandidate)
      → Terminal.arbitrate_uphold_proposer f k env w ≡ ok (c, w')
      → SamePending w w'
  arbitrate_uphold_proposer-SamePending f k c h =
      let e = arbitrate_uphold_proposer-Ends env w w' 0 k f c h in
      let done = ended env finalized e.before in
      let paid =
        pay_upheld-Closes env (with_candidate done w) e.middle 0 e.config k done e.paid_out in
      record {
        same_factory = ground (arith, paid.settles.cleared, e.after.same);
        same_market = ground (arith, paid.settles.cleared, e.after.same);
        same_treasury = ground (arith, paid.settles.cleared, e.after.same);
      }

  void_market-SamePending :
      (f : Address) (k : ℕ) (c : ResolutionCandidate)
      → Terminal.void_market f k env w ≡ ok (c, w')
      → SamePending w w'
  void_market-SamePending f k c h =
      let e = void_market-Ends env w w' 0 k f c h in
      let done = ended env voided e.before in
      let paid =
        pay_voided-Closes env (with_candidate done w) e.middle 0 e.config k done e.paid_out in
      record {
        same_factory = ground (arith, paid.settles.cleared, e.after.same);
        same_market = ground (arith, paid.settles.cleared, e.after.same);
        same_treasury = ground (arith, paid.settles.cleared, e.after.same);
      }

  -- A slot is untouched, cleared, or filled by its own request with the time of the call plus the
  -- timelock.
  abbrev pub After : Slot → Request → Type 0
  After k q =
      (pending k w'.storage ≡ pending k w.storage)
      ⊎ (pending k w'.storage ≡ none)
      ⊎ ((admin a : Address) × (q ≡ proposes k admin a)
          × (pending k w'.storage
              ≡ some (record {
                new_address = a;
                effective_at = env.timestamp + address_timelock_seconds;
              })))

  untouched : (k : Slot) (q : Request) → SamePending w w' → After k q
  untouched factory q same = inl same.same_factory
  untouched market_contract q same = inl same.same_market
  untouched treasury q same = inl same.same_treasury

  pub exec-After : (k : Slot) (q : Request) → exec q env w ≡ ok (tt, w') → After k q
  unfolding exec Admin.initialize Admin.set_default_challenge_window Admin.propose_factory
      Admin.execute_factory Admin.cancel_factory Admin.propose_market_contract
      Admin.execute_market_contract Admin.cancel_market_contract Admin.set_market_contract
      Admin.deposit_collateral Admin.slash_collateral Admin.propose_treasury Admin.execute_treasury
      Admin.cancel_treasury Admin.set_emergency_mode Admin.pause Admin.unpause Candidates.propose
      Candidates.propose_v2 Candidates.challenge Candidates.appeal
  exec-After slot (propose p m o s x u win b) h =
      untouched slot (propose p m o s x u win b) (record {
        same_factory = ground arith;
        same_market = ground arith;
        same_treasury = ground arith;
      })
  exec-After slot (propose_v2 p m o s x n hash u win b) h =
      untouched slot (propose_v2 p m o s x n hash u win b) (record {
        same_factory = ground arith;
        same_market = ground arith;
        same_treasury = ground arith;
      })
  exec-After slot (challenge p k u b) h = untouched slot (challenge p k u b) (record {
    same_factory = ground arith;
    same_market = ground arith;
    same_treasury = ground arith;
  })
  exec-After slot (appeal p k o s u win) h = untouched slot (appeal p k o s u win) (record {
    same_factory = ground arith;
    same_market = ground arith;
    same_treasury = ground arith;
  })
  exec-After slot (finalize f k) h =
      let (c, w1, first, then) = >>=-eq-ok (Terminal.finalize f k) (λ c. pure tt) env w tt w' h in
      untouched slot (finalize f k) (finalize-SamePending f k c (ground arith))
  exec-After slot (arbitrate_uphold_proposer a k) h =
      let (c, w1, first, then) =
        >>=-eq-ok (Terminal.arbitrate_uphold_proposer a k) (λ c. pure tt) env w tt w' h in
      untouched slot (arbitrate_uphold_proposer a k)
        (arbitrate_uphold_proposer-SamePending a k c (ground arith))
  exec-After slot (void_market a k) h =
      let (c, w1, first, then) =
        >>=-eq-ok (Terminal.void_market a k) (λ c. pure tt) env w tt w' h in
      untouched slot (void_market a k) (void_market-SamePending a k c (ground arith))
  exec-After slot (deposit_collateral p x n) h = untouched slot (deposit_collateral p x n) (record {
    same_factory = ground arith;
    same_market = ground arith;
    same_treasury = ground arith;
  })
  exec-After slot (slash_collateral a p x r) h = untouched slot (slash_collateral a p x r) (record {
    same_factory = ground arith;
    same_market = ground arith;
    same_treasury = ground arith;
  })
  exec-After slot (initialize a f m s) h = untouched slot (initialize a f m s) (record {
    same_factory = ground arith;
    same_market = ground arith;
    same_treasury = ground arith;
  })
  exec-After slot (set_default_challenge_window a s) h =
      untouched slot (set_default_challenge_window a s) (record {
        same_factory = ground arith;
        same_market = ground arith;
        same_treasury = ground arith;
      })
  exec-After slot (set_market_contract a m) h = untouched slot (set_market_contract a m) (record {
    same_factory = ground arith;
    same_market = ground arith;
    same_treasury = ground arith;
  })
  exec-After slot (set_emergency_mode a m) h = untouched slot (set_emergency_mode a m) (record {
    same_factory = ground arith;
    same_market = ground arith;
    same_treasury = ground arith;
  })
  exec-After slot (pause a) h = untouched slot (pause a) (record {
    same_factory = ground arith;
    same_market = ground arith;
    same_treasury = ground arith;
  })
  exec-After slot (unpause a) h = untouched slot (unpause a) (record {
    same_factory = ground arith;
    same_market = ground arith;
    same_treasury = ground arith;
  })
  exec-After factory (propose_factory a x) h = inr (inr (a, x, refl, ground arith))
  exec-After factory execute_factory h = inr (inl (ground arith))
  exec-After factory (cancel_factory a) h = inr (inl (ground arith))
  exec-After market_contract (propose_factory a x) h = inl (ground arith)
  exec-After market_contract execute_factory h = inl (ground arith)
  exec-After market_contract (cancel_factory a) h = inl (ground arith)
  exec-After treasury (propose_factory a x) h = inl (ground arith)
  exec-After treasury execute_factory h = inl (ground arith)
  exec-After treasury (cancel_factory a) h = inl (ground arith)
  exec-After factory (propose_market_contract a x) h = inl (ground arith)
  exec-After factory execute_market_contract h = inl (ground arith)
  exec-After factory (cancel_market_contract a) h = inl (ground arith)
  exec-After market_contract (propose_market_contract a x) h = inr (inr (a, x, refl, ground arith))
  exec-After market_contract execute_market_contract h = inr (inl (ground arith))
  exec-After market_contract (cancel_market_contract a) h = inr (inl (ground arith))
  exec-After treasury (propose_market_contract a x) h = inl (ground arith)
  exec-After treasury execute_market_contract h = inl (ground arith)
  exec-After treasury (cancel_market_contract a) h = inl (ground arith)
  exec-After factory (propose_treasury a x) h = inl (ground arith)
  exec-After factory execute_treasury h = inl (ground arith)
  exec-After factory (cancel_treasury a) h = inl (ground arith)
  exec-After market_contract (propose_treasury a x) h = inl (ground arith)
  exec-After market_contract execute_treasury h = inl (ground arith)
  exec-After market_contract (cancel_treasury a) h = inl (ground arith)
  exec-After treasury (propose_treasury a x) h = inr (inr (a, x, refl, ground arith))
  exec-After treasury execute_treasury h = inr (inl (ground arith))
  exec-After treasury (cancel_treasury a) h = inr (inl (ground arith))
