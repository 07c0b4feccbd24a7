-- ===== src/Resolution/Lifecycle/Refinement.antt =====
-- Every entry point of the resolution contract that returns makes a move of the abstract machine.
use vatix_contract.Prelude.{ℕ, ℤ, Bool, ◌≡◌, ok}
use vatix_contract.Resolution.Types.{Bytes}
use vatix_contract.Resolution.World.{Env, World}
use vatix_contract.Resolution.Candidates.{propose, propose_v2, challenge, appeal}
use vatix_contract.Resolution.Lifecycle.{docket, Move, opens, contests, appeals}
use vatix_contract.Resolution.Lifecycle.Filing.{propose-Opened, propose_v2-Opened}
use vatix_contract.Resolution.Lifecycle.Contesting.{challenge-Contested, appeal-Appealed}

-- `propose` opens a candidate of the abstract machine.
pub propose-Move :
    (env : Env) (w w' : World) (p m : ℕ) (o : Bool) (sig : Bytes) (exp : ℕ) (uri : Bytes) (win : ℕ)
    (b : ℤ) (id : ℕ)
    → propose p m o sig exp uri win b env w ≡ ok (id, w')
    → Move env.timestamp (docket w.storage) (docket w'.storage)
propose-Move env w w' p m o sig exp uri win b id h =
    let (token, o) = propose-Opened env w w' p m o sig exp uri win b id h in
    opens _ o.filing o.free o.next o.docket'

pub propose_v2-Move :
    (env : Env) (w w' : World) (p m : ℕ) (o : Bool) (sig : Bytes) (exp epoch : ℕ) (hash uri : Bytes)
    (win : ℕ) (b : ℤ) (id : ℕ)
    → propose_v2 p m o sig exp epoch hash uri win b env w ≡ ok (id, w')
    → Move env.timestamp (docket w.storage) (docket w'.storage)
propose_v2-Move env w w' p m o sig exp epoch hash uri win b id h =
    let (token, o) = propose_v2-Opened env w w' p m o sig exp epoch hash uri win b id h in
    opens _ o.filing o.free o.next o.docket'

pub challenge-Move :
    (env : Env) (w w' : World) (p k : ℕ) (uri : Bytes) (b : ℤ)
    → challenge p k uri b env w ≡ ok (tt, w')
    → Move env.timestamp (docket w.storage) (docket w'.storage)
challenge-Move env w w' p k uri b h =
    let (c, c', token, o) = challenge-Contested env w w' p k uri b h in
    contests k c c' _ o.stored o.contest o.docket'

pub appeal-Move :
    (env : Env) (w w' : World) (p k : ℕ) (o : Bool) (sig uri : Bytes) (win : ℕ)
    → appeal p k o sig uri win env w ≡ ok (tt, w')
    → Move env.timestamp (docket w.storage) (docket w'.storage)
appeal-Move env w w' p k o sig uri win h =
    let (c, c', o) = appeal-Appealed env w w' p k o sig uri win h in
    appeals k c c' o.stored o.appeal o.docket'
