-- ===== src/Resolution/Calls/Pausing.antt =====
-- The pause flag: the entry points that open with `require_not_paused`
-- (contracts/resolution/src/lib.rs).
use vatix_contract.Prelude.{ℕ, ℤ, Bool, true, some, err, ◌≡◌, arith}
use vatix_contract.Resolution.Types.{Address, Bytes, contract_paused}
use vatix_contract.Resolution.World.{Env, World}
use vatix_contract.Resolution.Candidates
use vatix_contract.Resolution.Terminal
use vatix_contract.Resolution.History.{
  Request, propose, challenge, appeal, finalize, arbitrate_uphold_proposer, void_market, exec,
}

-- The requests that the pause flag blocks, with their signer; `propose_v2`, the collateral and the
-- administrator's settings are not among them.
pub data Pausable (signer : Address) : Request → Type 0 where
  of_propose :
      (m : ℕ) (o : Bool) (s : Bytes) (x : ℕ) (u : Bytes) (win : ℕ) (b : ℤ)
      → Pausable signer (propose signer m o s x u win b)
  of_challenge : (k : ℕ) (u : Bytes) (b : ℤ) → Pausable signer (challenge signer k u b)
  of_appeal :
      (k : ℕ) (o : Bool) (s u : Bytes) (win : ℕ) → Pausable signer (appeal signer k o s u win)
  of_finalize : (k : ℕ) → Pausable signer (finalize signer k)
  of_arbitrate_uphold_proposer : (k : ℕ) → Pausable signer (arbitrate_uphold_proposer signer k)
  of_void_market : (k : ℕ) → Pausable signer (void_market signer k)

-- While the contract is paused, `propose`, `challenge`, `appeal`, `finalize`,
-- `arbitrate_uphold_proposer` and `void_market` answer a signed request with `ContractPaused`,
-- whatever the rest of the state and of the arguments.
pub exec-paused :
    (q : Request) (signer : Address) (env : Env) (w : World)
    → Pausable signer q
    → env.authorized signer ≡ true
    → w.storage.paused ≡ some true
    → exec q env w ≡ err contract_paused
unfolding exec Candidates.propose Candidates.challenge Candidates.appeal Terminal.finalize
    Terminal.close_finalized Terminal.arbitrate_uphold_proposer Terminal.void_market
    Terminal.close_arbitrated
exec-paused q signer env w (of_propose m o s x u win b) signed paused = ground arith
exec-paused q signer env w (of_challenge k u b) signed paused = ground arith
exec-paused q signer env w (of_appeal k o s u win) signed paused = ground arith
exec-paused q signer env w (of_finalize k) signed paused = ground arith
exec-paused q signer env w (of_arbitrate_uphold_proposer k) signed paused = ground arith
exec-paused q signer env w (of_void_market k) signed paused = ground arith
