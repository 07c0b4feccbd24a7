-- ===== src/Resolution/Calls/Stranding.antt =====
-- A signature that expires inside the challenge window (`finalize` and `propose` of
-- contracts/resolution/src/lib.rs).
use vatix_contract.Prelude.{ℕ, ℤ, Bool, ◌+◌, ◌<◌, some, ◌≡◌, ◌≢◌, ok, none, ◌∙◌, arith}
use vatix_contract.Resolution.Types.{Address, Bytes, ResolutionCandidate}
use vatix_contract.Resolution.World.{Env, World}
use vatix_contract.Resolution.Candidates.{propose}
use vatix_contract.Resolution.Terminal.{finalize}
use vatix_contract.Resolution.Terminal.Inversion.{finalize-Ends}
use vatix_contract.Resolution.Lifecycle.Filing.{filed, propose-Opened}

finalize-expired :
    (f k : ℕ) (c c' : ResolutionCandidate) (env : Env) (w w' : World)
    → w.storage.candidate k ≡ some c
    → c.signature_expiry < c.challenge_deadline
    → finalize f k env w ≢ ok (c', w')
finalize-expired f k c c' env w w' stored short h =
    let e = finalize-Ends env w w' 0 k f c' h in ground (arith, e.stored, e.may)

propose-entry :
    (p m : ℕ) (o : Bool) (s : Bytes) (x : ℕ) (u : Bytes) (win : ℕ) (b : ℤ) (id : ℕ) (env : Env)
    (w w1 : World)
    → propose p m o s x u win b env w ≡ ok (id, w1)
    → w1.storage.candidate id ≡ some (filed env w m o s x p u win b 0 none)
unfolding propose
propose-entry p m o s x u win b id env w w1 h = ground arith

-- A candidate that `propose` has filed under a signature that expires before the challenge window ends
-- is never finalized while its entry stands as filed: whatever the time, the caller, the host and the
-- rest of the state, `finalize` does not return.
pub propose-finalize :
    (p m : ℕ) (o : Bool) (s : Bytes) (x : ℕ) (u : Bytes) (win : ℕ) (b : ℤ) (id : ℕ) (env : Env)
    (w w1 : World)
    → propose p m o s x u win b env w ≡ ok (id, w1)
    → x < env.timestamp + win
    → (f : Address) (later : Env) (w2 w3 : World) (c : ResolutionCandidate)
    → w2.storage.candidate id ≡ w1.storage.candidate id
    → finalize f id later w2 ≢ ok (c, w3)
propose-finalize p m o s x u win b id env w w1 h short f later w2 w3 c same r =
    let (token, opened) = propose-Opened env w w1 p m o s x u win b id h in
    let entry : w1.storage.candidate id ≡ some (filed env w m o s x p u win b 0 none) =
      propose-entry p m o s x u win b id env w w1 h in
    finalize-expired f id _ c later w2 w3 (same ∙ entry) short r
