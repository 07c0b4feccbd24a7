-- ===== src/Resolution/History/Safety.antt =====
-- What holds of the resolution contract after every history: the invariant of the docket, and what no
-- later call can change.
use vatix_contract.Prelude.{
  unwrap_or, ℕ, ◌<◌, ◌≤◌, some, List, [], ◌∷◌, ◌≡◌, ◌⊎◌, refl, ok, err, trap, Outcome, ⊤, arith,
}
use vatix_contract.Resolution.Types.{
  CandidateStatus, ContractError, finalized, voided, ResolutionCandidate,
}
use vatix_contract.Resolution.World.{Env, World, fresh}
use vatix_contract.Resolution.Lifecycle.{
  Docket, docket, Move, opens, contests, appeals, upholds, voids, stays,
}
use vatix_contract.Resolution.Lifecycle.Invariant.{Inv, IsSound, Move-Inv}
use vatix_contract.Resolution.History.{Request, exec, commit, step, run}
use vatix_contract.Resolution.History.Moves.{exec-Move}

-- A call, rolled back or not, moves the docket or leaves it alone.
pub step-Move :
    (env : Env) (q : Request) (w : World)
    → Move env.timestamp (docket w.storage) (docket (step (env, q) w).storage)
unfolding step
step-Move env q w = go (exec q env w) refl
  where
    go :
        (r : Outcome ContractError (⊤ × World))
        → exec q env w ≡ r
        → Move env.timestamp (docket w.storage) (docket (commit w r).storage)
    go (ok (u, w')) e = exec-Move q env w w' e
    go (err x) e = stays refl
    go trap e = stays refl

pub fresh-Inv : Inv (docket fresh.storage)
fresh-Inv = record {
  counted = λ k c h. absurd (cc);
  indexed = λ m k h. absurd (cc);
  sound = λ k c h. absurd (cc);
  unused = λ k h. refl;
}

pub run_from-Inv :
    (cs : List (Env × Request)) (w : World)
    → Inv (docket w.storage)
    → Inv (docket (run cs w).storage)
unfolding run
run_from-Inv [] w inv = inv
run_from-Inv ((env, q) ∷ cs) w inv =
    run_from-Inv cs (step (env, q) w)
      (Move-Inv (docket w.storage) inv env.timestamp _ (step-Move env q w))

pub run-Inv : (cs : List (Env × Request)) → Inv (docket (run cs fresh).storage)
run-Inv cs = run_from-Inv cs fresh fresh-Inv

-- A candidate that is on file after some history from deployment stands under its own identifier,
-- which is positive and at most the counter, and is the one that its market's entry names; it has
-- been appealed at most three times, its bond and those of its challengers reach their minima, and
-- there is exactly one challenger on record for each challenge it has met, and none once it is closed.
pub run-candidate :
    (cs : List (Env × Request)) (k : ℕ) (c : ResolutionCandidate)
    → (run cs fresh).storage.candidate k ≡ some c
    → (c.id ≡ k)
      × (0 < k)
      × (k ≤ unwrap_or (run cs fresh).storage.candidate_counter 0)
      × ((run cs fresh).storage.candidate_by_market c.market_id ≡ some k)
      × IsSound c (unwrap_or ((run cs fresh).storage.challengers k) [])
run-candidate cs k c h =
    let inv = run-Inv cs in
    let (own, positive, bounded, market) = inv.counted k c h in
    (own, positive, bounded, market, inv.sound k c h)

-- A market's entry after a history from deployment names a candidate that is on file for that market.
pub run-market :
    (cs : List (Env × Request)) (m k : ℕ)
    → (run cs fresh).storage.candidate_by_market m ≡ some k
    → (c : ResolutionCandidate) × ((run cs fresh).storage.candidate k ≡ some c) × (c.market_id ≡ m)
run-market cs m k h = (run-Inv cs).indexed m k h

abbrev pub IsClosed : CandidateStatus → Type 0
IsClosed s = (s ≡ finalized) ⊎ (s ≡ voided)

-- A move leaves a closed candidate as it is.
Move-closed :
    (at : ℕ) (d d' : Docket) (k : ℕ) (c : ResolutionCandidate)
    → Inv d
    → Move at d d'
    → d.candidate k ≡ some c
    → IsClosed c.status
    → d'.candidate k ≡ some c
Move-closed at d d' k c inv (opens x filing free next e) h closed =
    ground (arith, inv.counted k c h)
Move-closed at d d' k c inv (contests j x x' r stored contest e) h closed =
    ground (arith, inv.counted j x stored)
Move-closed at d d' k c inv (appeals j x x' stored appeal e) h closed =
    ground (arith, inv.counted j x stored)
Move-closed at d d' k c inv (upholds j x x' stored way closing e) h closed =
    ground (arith, inv.counted j x stored)
Move-closed at d d' k c inv (voids j x x' stored may closing e) h closed =
    ground (arith, inv.counted j x stored)
Move-closed at d d' k c inv (stays e) h closed = ground arith

run_from-closed :
    (cs : List (Env × Request)) (w : World) (k : ℕ) (c : ResolutionCandidate)
    → Inv (docket w.storage)
    → w.storage.candidate k ≡ some c
    → IsClosed c.status
    → (run cs w).storage.candidate k ≡ some c
unfolding run
run_from-closed [] w k c inv h closed = h
run_from-closed ((env, q) ∷ cs) w k c inv h closed =
    let moved = step-Move env q w in
    run_from-closed cs (step (env, q) w) k c (Move-Inv (docket w.storage) inv env.timestamp _ moved)
      (Move-closed env.timestamp (docket w.storage) _ k c inv moved h closed) closed

-- A dispute ends once: a candidate that is finalized or voided after some history is the same after
-- every longer one, so it is neither finalized again nor reopened.
pub run-closed :
    (cs ds : List (Env × Request)) (k : ℕ) (c : ResolutionCandidate)
    → (run cs fresh).storage.candidate k ≡ some c
    → IsClosed c.status
    → (run ds (run cs fresh)).storage.candidate k ≡ some c
run-closed cs ds k c h closed = run_from-closed ds (run cs fresh) k c (run-Inv cs) h closed
