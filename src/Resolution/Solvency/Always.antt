-- ===== src/Resolution/Solvency/Always.antt =====
-- Solvency of the resolution contract after every history that does not slash collateral.
use vatix_contract.Prelude.{
  Every, ℕ, List, [], ◌∷◌, ⊤, Outcome, ok, err, trap, pure, >>=-eq-ok, ◌≡◌, refl, ap, arith,
}
use vatix_contract.Resolution.Types.{Address, ContractError}
use vatix_contract.Resolution.World.{Env, World, fresh}
use vatix_contract.Resolution.Money.{received, paid}
use vatix_contract.Resolution.Admin
use vatix_contract.Resolution.Candidates
use vatix_contract.Resolution.Terminal
use vatix_contract.Resolution.Lifecycle.{docket}
use vatix_contract.Resolution.Lifecycle.Filing.{propose-Opened, propose_v2-Opened}
use vatix_contract.Resolution.Lifecycle.Contesting.{challenge-Contested, appeal-Appealed}
use vatix_contract.Resolution.Lifecycle.Invariant.{Inv, Move-Inv}
use vatix_contract.Resolution.History.{
  Request, initialize, set_default_challenge_window, propose_factory, execute_factory,
  cancel_factory, propose_market_contract, execute_market_contract, cancel_market_contract,
  set_market_contract, propose, propose_v2, challenge, appeal, finalize, arbitrate_uphold_proposer,
  void_market, deposit_collateral, slash_collateral, propose_treasury, execute_treasury,
  cancel_treasury, set_emergency_mode, pause, unpause, exec, commit, step, run,
}
use vatix_contract.Resolution.History.Safety.{step-Move, fresh-Inv}
use vatix_contract.Resolution.Solvency.{locked, IsSolvent, IsHost}
use vatix_contract.Resolution.Solvency.Flows.{
  Opened-IsSolvent, Contested-IsSolvent, Appealed-IsSolvent,
}
use vatix_contract.Resolution.Solvency.Endings.{
  finalize-IsSolvent, arbitrate_uphold_proposer-IsSolvent, void_market-IsSolvent,
}

-- Every request but the slashing of a proposer's collateral, which pays in a token of the
-- administrator's choice.
abbrev pub Bonded : Request → Type 0
Bonded (slash_collateral a p token r) = ⊥
Bonded q = Unit

module _ (tok : ℕ → Address) (t self : Address) where
  unmoved :
      (w w' : World)
      → docket w'.storage ≡ docket w.storage
      → paid self t w'.log ≡ paid self t w.log
      → received self t w'.log ≡ received self t w.log
      → IsSolvent tok t self w
      → IsSolvent tok t self w'
  unmoved w w' books out come solvent = omega (arith, ap (locked tok t) books)

  exec-IsSolvent :
      (q : Request) (env : Env) (w w' : World)
      → Bonded q
      → IsHost self tok env
      → Inv (docket w.storage)
      → exec q env w ≡ ok (tt, w')
      → IsSolvent tok t self w
      → IsSolvent tok t self w'
  unfolding exec Admin.initialize Admin.set_default_challenge_window Admin.propose_factory
      Admin.execute_factory Admin.cancel_factory Admin.propose_market_contract
      Admin.execute_market_contract Admin.cancel_market_contract Admin.set_market_contract
      Admin.deposit_collateral Admin.slash_collateral Admin.propose_treasury Admin.execute_treasury
      Admin.cancel_treasury Admin.set_emergency_mode Admin.pause Admin.unpause
  exec-IsSolvent (propose p m o s x u win b) env w w' bonded host inv h solvent =
      let (id, w1, first, then) =
        >>=-eq-ok (Candidates.propose p m o s x u win b) (λ id. pure tt) env w tt w' h in
      let (token, opened) = propose-Opened env w w' p m o s x u win b id (ground arith) in
      Opened-IsSolvent tok t self env host w w' _ token inv opened solvent
  exec-IsSolvent (propose_v2 p m o s x n hash u win b) env w w' bonded host inv h solvent =
      let (id, w1, first, then) =
        >>=-eq-ok (Candidates.propose_v2 p m o s x n hash u win b) (λ id. pure tt) env w tt w' h in
      let (token, opened) = propose_v2-Opened env w w' p m o s x n hash u win b id (ground arith) in
      Opened-IsSolvent tok t self env host w w' _ token inv opened solvent
  exec-IsSolvent (challenge p k u b) env w w' bonded host inv h solvent =
      let (c, c', token, contested) = challenge-Contested env w w' p k u b h in
      Contested-IsSolvent tok t self env host w w' k c c' _ token inv contested solvent
  exec-IsSolvent (appeal p k o s u win) env w w' bonded host inv h solvent =
      let (c, c', appealed) = appeal-Appealed env w w' p k o s u win h in
      Appealed-IsSolvent tok t self env host w w' k c c' inv appealed solvent
  exec-IsSolvent (finalize f k) env w w' bonded host inv h solvent =
      let (c, w1, first, then) = >>=-eq-ok (Terminal.finalize f k) (λ c. pure tt) env w tt w' h in
      finalize-IsSolvent tok t self env host w w' k f c inv (ground arith) solvent
  exec-IsSolvent (arbitrate_uphold_proposer a k) env w w' bonded host inv h solvent =
      let (c, w1, first, then) =
        >>=-eq-ok (Terminal.arbitrate_uphold_proposer a k) (λ c. pure tt) env w tt w' h in
      arbitrate_uphold_proposer-IsSolvent tok t self env host w w' k a c inv (ground arith) solvent
  exec-IsSolvent (void_market a k) env w w' bonded host inv h solvent =
      let (c, w1, first, then) =
        >>=-eq-ok (Terminal.void_market a k) (λ c. pure tt) env w tt w' h in
      void_market-IsSolvent tok t self env host w w' k a c inv (ground arith) solvent
  exec-IsSolvent (slash_collateral a p token r) env w w' bonded host inv h solvent = absurd bonded
  exec-IsSolvent (deposit_collateral p token n) env w w' bonded host inv h solvent =
      let same : docket w'.storage ≡ docket w.storage = ground arith in
      let books = ap (locked tok t) same in ground (arith, host.at_self, host.unsigned)
  exec-IsSolvent (initialize a f m s) env w w' bonded host inv h solvent =
      unmoved w w' (ground arith) (ground arith) (ground arith) solvent
  exec-IsSolvent (set_default_challenge_window a s) env w w' bonded host inv h solvent =
      unmoved w w' (ground arith) (ground arith) (ground arith) solvent
  exec-IsSolvent (propose_factory a f) env w w' bonded host inv h solvent =
      unmoved w w' (ground arith) (ground arith) (ground arith) solvent
  exec-IsSolvent execute_factory env w w' bonded host inv h solvent =
      unmoved w w' (ground arith) (ground arith) (ground arith) solvent
  exec-IsSolvent (cancel_factory a) env w w' bonded host inv h solvent =
      unmoved w w' (ground arith) (ground arith) (ground arith) solvent
  exec-IsSolvent (propose_market_contract a m) env w w' bonded host inv h solvent =
      unmoved w w' (ground arith) (ground arith) (ground arith) solvent
  exec-IsSolvent execute_market_contract env w w' bonded host inv h solvent =
      unmoved w w' (ground arith) (ground arith) (ground arith) solvent
  exec-IsSolvent (cancel_market_contract a) env w w' bonded host inv h solvent =
      unmoved w w' (ground arith) (ground arith) (ground arith) solvent
  exec-IsSolvent (set_market_contract a m) env w w' bonded host inv h solvent =
      unmoved w w' (ground arith) (ground arith) (ground arith) solvent
  exec-IsSolvent (propose_treasury a x) env w w' bonded host inv h solvent =
      unmoved w w' (ground arith) (ground arith) (ground arith) solvent
  exec-IsSolvent execute_treasury env w w' bonded host inv h solvent =
      unmoved w w' (ground arith) (ground arith) (ground arith) solvent
  exec-IsSolvent (cancel_treasury a) env w w' bonded host inv h solvent =
      unmoved w w' (ground arith) (ground arith) (ground arith) solvent
  exec-IsSolvent (set_emergency_mode a m) env w w' bonded host inv h solvent =
      unmoved w w' (ground arith) (ground arith) (ground arith) solvent
  exec-IsSolvent (pause a) env w w' bonded host inv h solvent =
      unmoved w w' (ground arith) (ground arith) (ground arith) solvent
  exec-IsSolvent (unpause a) env w w' bonded host inv h solvent =
      unmoved w w' (ground arith) (ground arith) (ground arith) solvent

  step-IsSolvent :
      (env : Env) (q : Request) (w : World)
      → Bonded q
      → IsHost self tok env
      → Inv (docket w.storage)
      → IsSolvent tok t self w
      → IsSolvent tok t self (step (env, q) w)
  unfolding step
  step-IsSolvent env q w bonded host inv solvent = go (exec q env w) refl
    where
      go :
          (r : Outcome ContractError (⊤ × World))
          → exec q env w ≡ r
          → IsSolvent tok t self (commit w r)
      go (ok (u, w')) e = exec-IsSolvent q env w w' bonded host inv e solvent
      go (err x) e = solvent
      go trap e = solvent

  run_from-IsSolvent :
      (cs : List (Env × Request)) (w : World)
      → Every (λ c. Bonded c.1 × IsHost self tok c.0) cs
      → Inv (docket w.storage)
      → IsSolvent tok t self w
      → IsSolvent tok t self (run cs w)
  unfolding run
  run_from-IsSolvent [] w calls inv solvent = solvent
  run_from-IsSolvent ((env, q) ∷ cs) w ((bonded, host), rest) inv solvent =
      run_from-IsSolvent cs (step (env, q) w) rest
        (Move-Inv (docket w.storage) inv env.timestamp _ (step-Move env q w))
        (step-IsSolvent env q w bonded host inv solvent)

-- Whatever the history of calls without a slashing, the contract has received in each token at
-- least what it has paid out in it plus every bond it still holds for an open dispute in a market
-- with that collateral, so it can pay them all; each call comes from a host that runs the contract
-- at its own address, does not sign for it, and answers the same collateral token for a market.
pub run-IsSolvent :
    (tok : ℕ → Address) (t self : Address) (cs : List (Env × Request))
    → Every (λ c. Bonded c.1 × IsHost self tok c.0) cs
    → IsSolvent tok t self (run cs fresh)
run-IsSolvent tok t self cs calls =
    run_from-IsSolvent tok t self cs fresh calls fresh-Inv (omega arith)
