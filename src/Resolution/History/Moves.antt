-- ===== src/Resolution/History/Moves.antt =====
-- Each call of a history makes a move of the abstract machine or leaves the docket alone.
use vatix_contract.Prelude.{◌≡◌, ok, pure, >>=-eq-ok, arith}
use vatix_contract.Resolution.World.{Env, World}
use vatix_contract.Resolution.Admin
use vatix_contract.Resolution.Candidates
use vatix_contract.Resolution.Terminal
use vatix_contract.Resolution.Lifecycle.{docket, Move, stays}
use vatix_contract.Resolution.Lifecycle.Refinement.{
  propose-Move, propose_v2-Move, challenge-Move, appeal-Move,
}
use vatix_contract.Resolution.Lifecycle.Endings.{
  finalize-Move, arbitrate_uphold_proposer-Move, void_market-Move,
}
use vatix_contract.Resolution.History.{
  Request, initialize, set_default_challenge_window, propose_factory, execute_factory,
  cancel_factory, propose_market_contract, execute_market_contract, cancel_market_contract,
  set_market_contract, propose, propose_v2, challenge, appeal, finalize, arbitrate_uphold_proposer,
  void_market, deposit_collateral, slash_collateral, propose_treasury, execute_treasury,
  cancel_treasury, set_emergency_mode, pause, unpause, exec,
}

-- A call of any entry point that returns makes one move of the abstract machine at the time of the
-- call, which may be the one that leaves the docket alone.
pub exec-Move :
    (q : Request) (env : Env) (w w' : World)
    → exec q env w ≡ ok (tt, w')
    → Move env.timestamp (docket w.storage) (docket w'.storage)
unfolding exec Admin.initialize Admin.set_default_challenge_window Admin.propose_factory
    Admin.execute_factory Admin.cancel_factory Admin.propose_market_contract
    Admin.execute_market_contract Admin.cancel_market_contract Admin.set_market_contract
    Admin.deposit_collateral Admin.slash_collateral Admin.propose_treasury Admin.execute_treasury
    Admin.cancel_treasury Admin.set_emergency_mode Admin.pause Admin.unpause
exec-Move (propose p m o s x u win b) env w w' h =
    let (id, w1, first, then) =
      >>=-eq-ok (Candidates.propose p m o s x u win b) (λ id. pure tt) env w tt w' h in
    propose-Move env w w' p m o s x u win b id (ground arith)
exec-Move (propose_v2 p m o s x n hash u win b) env w w' h =
    let (id, w1, first, then) =
      >>=-eq-ok (Candidates.propose_v2 p m o s x n hash u win b) (λ id. pure tt) env w tt w' h in
    propose_v2-Move env w w' p m o s x n hash u win b id (ground arith)
exec-Move (challenge p k u b) env w w' h = challenge-Move env w w' p k u b h
exec-Move (appeal p k o s u win) env w w' h = appeal-Move env w w' p k o s u win h
exec-Move (finalize f k) env w w' h =
    let (c, w1, first, then) = >>=-eq-ok (Terminal.finalize f k) (λ c. pure tt) env w tt w' h in
    finalize-Move env w w' f k c (ground arith)
exec-Move (arbitrate_uphold_proposer a k) env w w' h =
    let (c, w1, first, then) =
      >>=-eq-ok (Terminal.arbitrate_uphold_proposer a k) (λ c. pure tt) env w tt w' h in
    arbitrate_uphold_proposer-Move env w w' a k c (ground arith)
exec-Move (void_market a k) env w w' h =
    let (c, w1, first, then) = >>=-eq-ok (Terminal.void_market a k) (λ c. pure tt) env w tt w' h in
    void_market-Move env w w' a k c (ground arith)
exec-Move (initialize a f m s) env w w' h = stays (ground arith)
exec-Move (set_default_challenge_window a s) env w w' h = stays (ground arith)
exec-Move (propose_factory a f) env w w' h = stays (ground arith)
exec-Move execute_factory env w w' h = stays (ground arith)
exec-Move (cancel_factory a) env w w' h = stays (ground arith)
exec-Move (propose_market_contract a m) env w w' h = stays (ground arith)
exec-Move execute_market_contract env w w' h = stays (ground arith)
exec-Move (cancel_market_contract a) env w w' h = stays (ground arith)
exec-Move (set_market_contract a m) env w w' h = stays (ground arith)
exec-Move (deposit_collateral p t n) env w w' h = stays (ground arith)
exec-Move (slash_collateral a p t r) env w w' h = stays (ground arith)
exec-Move (propose_treasury a t) env w w' h = stays (ground arith)
exec-Move execute_treasury env w w' h = stays (ground arith)
exec-Move (cancel_treasury a) env w w' h = stays (ground arith)
exec-Move (set_emergency_mode a m) env w w' h = stays (ground arith)
exec-Move (pause a) env w w' h = stays (ground arith)
exec-Move (unpause a) env w w' h = stays (ground arith)
