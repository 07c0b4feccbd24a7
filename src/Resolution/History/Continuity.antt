-- ===== src/Resolution/History/Continuity.antt =====
-- What becomes of a candidate of the resolution contract as its history goes on.
use vatix_contract.Prelude.{
  ℕ, ◌≤◌, ◌==◌, Bool-cases, Option-cases, some, inl, inr, List, [], ◌∷◌, ◌≡◌, ap, length, ◌+◌,
  unwrap_or, update, arith,
}
use vatix_contract.Resolution.Types.{CandidateStatus, ResolutionCandidate}
use vatix_contract.Resolution.World.{Env, World, fresh}
use vatix_contract.Resolution.Guards.{max_appeal_rounds}
use vatix_contract.Resolution.Lifecycle.{
  Docket, docket, Keeps, Move, opens, contests, appeals, upholds, voids, stays,
}
use vatix_contract.Resolution.Lifecycle.Invariant.{Inv, on_record, Move-Inv}
use vatix_contract.Resolution.History.{Request, step, run}
use vatix_contract.Resolution.History.Safety.{step-Move, run_from-Inv, run-Inv}

-- The candidate stays on file, with its market, proposer, bond and signature scheme.
pub record Continues (d' : Docket) (k : ℕ) (c : ResolutionCandidate) : Type 0 where
  pub later : ResolutionCandidate
  pub filed : d'.candidate k ≡ some later
  pub keeps : Keeps c later
  pub rounds : c.appeal_round ≤ later.appeal_round

refile-Continues :
    (d d' : Docket) (j k : ℕ) (x x' c : ResolutionCandidate)
    → Inv d
    → d'.candidate ≡ update d.candidate x'.id (some x')
    → d.candidate j ≡ some x
    → Keeps x x'
    → x.appeal_round ≤ x'.appeal_round
    → d.candidate k ≡ some c
    → Continues d' k c
refile-Continues d d' j k x x' c inv e stored keeps rounds h = elim (Bool-cases (k == j)) [
  | inl same ↦ record {
    later = x';
    filed = rw e (ground (arith, inv.counted j x stored));
    keeps = ground arith;
    rounds = ground arith;
  }
  | inr other ↦ record {
    later = c;
    filed = rw e (ground (arith, inv.counted j x stored));
    keeps = ground arith;
    rounds = ground arith;
  }
]

Move-Continues :
    (at : ℕ) (d d' : Docket) (k : ℕ) (c : ResolutionCandidate)
    → Inv d
    → Move at d d'
    → d.candidate k ≡ some c
    → Continues d' k c
Move-Continues at d d' k c inv (opens x filing free next e) h = record {
  later = c;
  filed = ground (arith, inv.counted k c h);
  keeps = ground arith;
  rounds = ground arith;
}
Move-Continues at d d' k c inv (contests j x x' r stored contest e) h =
    refile-Continues d d' j k x x' c inv (ap (λ (y : Docket). y.candidate) e) stored contest.keeps
      (ground arith) h
Move-Continues at d d' k c inv (appeals j x x' stored appeal e) h =
    refile-Continues d d' j k x x' c inv (ap (λ (y : Docket). y.candidate) e) stored appeal.keeps
      (ground arith) h
Move-Continues at d d' k c inv (upholds j x x' stored way closing e) h =
    refile-Continues d d' j k x x' c inv (ap (λ (y : Docket). y.candidate) e) stored closing.keeps
      (ground arith) h
Move-Continues at d d' k c inv (voids j x x' stored may closing e) h =
    refile-Continues d d' j k x x' c inv (ap (λ (y : Docket). y.candidate) e) stored closing.keeps
      (ground arith) h
Move-Continues at d d' k c inv (stays e) h = record {
  later = c;
  filed = ground arith;
  keeps = ground arith;
  rounds = ground arith;
}

run_from-Continues :
    (cs : List (Env × Request)) (w : World) (k : ℕ) (c : ResolutionCandidate)
    → Inv (docket w.storage)
    → w.storage.candidate k ≡ some c
    → Continues (docket (run cs w).storage) k c
unfolding run
run_from-Continues [] w k c inv h = record {
  later = c;
  filed = h;
  keeps = ground arith;
  rounds = ground arith;
}
run_from-Continues ((env, q) ∷ cs) w k c inv h =
    let moved = step-Move env q w in
    let now = Move-Continues env.timestamp (docket w.storage) _ k c inv moved h in
    let then =
      run_from-Continues cs (step (env, q) w) k now.later
        (Move-Inv (docket w.storage) inv env.timestamp _ moved) now.filed in
    record { later = then.later; filed = then.filed; keeps = ground arith; rounds = ground arith }

-- A candidate that is on file after some history is on file after every longer one, with the same
-- market, proposer, bond, expiry and hash and no fewer appeals; and it is the one that its market's
-- entry names, so no second candidate is ever filed for a market.
pub run-Continues :
    (cs ds : List (Env × Request)) (k : ℕ) (c : ResolutionCandidate)
    → (run cs fresh).storage.candidate k ≡ some c
    → Continues (docket (run ds (run cs fresh)).storage) k c
      × ((run ds (run cs fresh)).storage.candidate_by_market c.market_id ≡ some k)
run-Continues cs ds k c h =
    let later = run_from-Continues ds (run cs fresh) k c (run-Inv cs) h in
    let inv = run_from-Inv ds (run cs fresh) (run-Inv cs) in
    (later, ground (arith, inv.counted k later.later later.filed))

on_record_le : (s : CandidateStatus) (n : ℕ) → on_record s n ≤ n + 1
on_record_le s n = ground arith

-- After every history there are at most `max_appeal_rounds` + 1 challengers on record for a candidate.
pub run-challengers_le :
    (cs : List (Env × Request)) (k : ℕ)
    → length (unwrap_or ((run cs fresh).storage.challengers k) []) ≤ max_appeal_rounds + 1
run-challengers_le cs k = elim (Option-cases ((run cs fresh).storage.candidate k)) [
  | inl absent ↦ omega (arith, ap length ((run-Inv cs).unused k absent))
  | inr (c, stored) ↦
      ground (arith, (run-Inv cs).sound k c stored, on_record_le c.status c.appeal_round)
]
