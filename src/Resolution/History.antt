-- ===== src/Resolution/History.antt =====
-- Histories of the resolution contract: any calls of its entry points, by anyone, one after another.
-- The host rolls back a call that returns an error or traps, and refuses a call back into the
-- contract while one runs, so a history is a sequence of whole calls.
pub mod Moves
pub mod Safety
pub mod Continuity
use vatix_contract.Prelude.{ℕ, ℤ, Bool, List, [], ◌∷◌, ⊤, Outcome, ok, err, trap, pure, ◌>>◌, ◌>>=◌}
use vatix_contract.Resolution.Types.{Address, Bytes, ContractError, EmergencyMode}
use vatix_contract.Resolution.World.{Env, World, M}
use vatix_contract.Resolution.Candidates
use vatix_contract.Resolution.Terminal
use vatix_contract.Resolution.Admin

-- The entry points that change state, with their arguments.
pub data Request : Type 0 where
  initialize : (admin factory market_contract : Address) (window : ℕ) → Request
  set_default_challenge_window : (admin : Address) (seconds : ℕ) → Request
  propose_factory : (admin factory : Address) → Request
  execute_factory : Request
  cancel_factory : (admin : Address) → Request
  propose_market_contract : (admin market_contract : Address) → Request
  execute_market_contract : Request
  cancel_market_contract : (admin : Address) → Request
  set_market_contract : (admin market_contract : Address) → Request
  propose :
      (proposer : Address) (market_id : ℕ) (outcome : Bool) (signature : Bytes) (expiry : ℕ)
      (evidence_uri : Bytes) (window : ℕ) (bond : ℤ)
      → Request
  propose_v2 :
      (proposer : Address) (market_id : ℕ) (outcome : Bool) (signature : Bytes)
      (valid_until epoch : ℕ) (hash evidence_uri : Bytes) (window : ℕ) (bond : ℤ)
      → Request
  challenge : (challenger : Address) (k : ℕ) (uri : Bytes) (bond : ℤ) → Request
  appeal :
      (proposer : Address) (k : ℕ) (outcome : Bool) (signature evidence_uri : Bytes) (window : ℕ)
      → Request
  finalize : (finalizer : Address) (k : ℕ) → Request
  arbitrate_uphold_proposer : (admin : Address) (k : ℕ) → Request
  void_market : (admin : Address) (k : ℕ) → Request
  deposit_collateral : (proposer token : Address) (amount : ℤ) → Request
  slash_collateral : (admin proposer token recipient : Address) → Request
  propose_treasury : (admin treasury : Address) → Request
  execute_treasury : Request
  cancel_treasury : (admin : Address) → Request
  set_emergency_mode : (admin : Address) (mode : EmergencyMode) → Request
  pause : (admin : Address) → Request
  unpause : (admin : Address) → Request

-- A call, with its answer dropped.
unfoldable pub exec : Request → M ⊤
exec (initialize a f m s) = Admin.initialize a f m s
exec (set_default_challenge_window a s) = Admin.set_default_challenge_window a s
exec (propose_factory a f) = Admin.propose_factory a f
exec execute_factory = do Admin.execute_factory; pure tt
exec (cancel_factory a) = Admin.cancel_factory a
exec (propose_market_contract a m) = Admin.propose_market_contract a m
exec execute_market_contract = do Admin.execute_market_contract; pure tt
exec (cancel_market_contract a) = Admin.cancel_market_contract a
exec (set_market_contract a m) = Admin.set_market_contract a m
exec (propose p m o s x u win b) = do Candidates.propose p m o s x u win b; pure tt
exec (propose_v2 p m o s x n h u win b) = do Candidates.propose_v2 p m o s x n h u win b; pure tt
exec (challenge p k u b) = Candidates.challenge p k u b
exec (appeal p k o s u win) = Candidates.appeal p k o s u win
exec (finalize f k) = do Terminal.finalize f k; pure tt
exec (arbitrate_uphold_proposer a k) = do Terminal.arbitrate_uphold_proposer a k; pure tt
exec (void_market a k) = do Terminal.void_market a k; pure tt
exec (deposit_collateral p t n) = Admin.deposit_collateral p t n
exec (slash_collateral a p t r) = do Admin.slash_collateral a p t r; pure tt
exec (propose_treasury a t) = Admin.propose_treasury a t
exec execute_treasury = do Admin.execute_treasury; pure tt
exec (cancel_treasury a) = Admin.cancel_treasury a
exec (set_emergency_mode a m) = Admin.set_emergency_mode a m
exec (pause a) = Admin.pause a
exec (unpause a) = Admin.unpause a

-- The world after a call: rolled back unless the call returns.
abbrev pub commit : World → Outcome ContractError (⊤ × World) → World
commit w (ok (u, w')) = w'
commit w (err e) = w
commit w trap = w

unfoldable pub step : Env × Request → World → World
step (env, q) w = commit w (exec q env w)

-- The world after a history, which is read from the left.
unfoldable pub run : List (Env × Request) → World → World
run [] w = w
run (c ∷ cs) w = run cs (step c w)
