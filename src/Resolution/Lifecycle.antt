-- ===== src/Resolution/Lifecycle.antt =====
-- The dispute game as an abstract machine, without configuration, money and events: which candidates
-- there are, and which moves change them. The lifecycle diagram at the top of
-- contracts/resolution/src/lib.rs is its description; the children prove the entry points against it.
pub mod Filing
pub mod Contesting
pub mod Refinement
pub mod Endings
pub mod Invariant
use vatix_contract.Prelude.{
  ℕ, ◌+◌, ◌≤◌, ◌<◌, ◌≤ℤ◌, Option, none, some, List, [], ◌∷◌, ◌++◌, ◌≡◌, ◌⊎◌, update, unwrap_or,
}
use vatix_contract.Resolution.Types.{
  Address, Bytes, CandidateStatus, proposed, challenged, finalized, voided, ChallengeRecord,
  ResolutionCandidate,
}
use vatix_contract.Resolution.World.{Storage}
use vatix_contract.Resolution.Guards.{
  min_challenge_window_seconds, max_challenge_window_seconds, max_appeal_rounds, min_bond_amount,
  min_challenge_bond_amount, arbitration_timelock_seconds,
}

-- The abstract view: an absent counter is 0, and an absent list of challengers is empty.
pub record Docket : Type 0 where
  pub counter : ℕ
  pub candidate : ℕ → Option ResolutionCandidate
  pub by_market : ℕ → Option ℕ
  pub challengers : ℕ → List ChallengeRecord

abbrev pub docket : Storage → Docket
docket s = record {
  counter = unwrap_or s.candidate_counter 0;
  candidate = s.candidate;
  by_market = s.candidate_by_market;
  challengers = λ k. unwrap_or (s.challengers k) [];
}

-- A candidate as it is first filed at time `at`.
pub record IsFiling (at : ℕ) (c : ResolutionCandidate) : Type 0 where
  pub status : c.status ≡ proposed
  pub round : c.appeal_round ≡ 0
  pub bonded : min_bond_amount ≤ℤ c.bond_amount
  pub filed : c.proposed_at ≡ at
  pub window_min : at + min_challenge_window_seconds ≤ c.challenge_deadline
  pub window_max : c.challenge_deadline ≤ at + max_challenge_window_seconds
  pub unexpired : at ≤ c.signature_expiry
  pub pending : c.finalized_at ≡ none

-- What no move changes in a candidate.
pub record Keeps (c c' : ResolutionCandidate) : Type 0 where
  pub id : c'.id ≡ c.id
  pub market : c'.market_id ≡ c.market_id
  pub proposer : c'.proposer ≡ c.proposer
  pub bond : c'.bond_amount ≡ c.bond_amount
  pub expiry : c'.signature_expiry ≡ c.signature_expiry
  pub hash : c'.passphrase_hash ≡ c.passphrase_hash

-- A challenge of `c` by `r` at time `at`.
pub record IsContest (at : ℕ) (r : ChallengeRecord) (c c' : ResolutionCandidate) : Type 0 where
  pub keeps : Keeps c c'
  pub before : c.status ≡ proposed
  pub after : c'.status ≡ challenged
  pub same_round : c'.appeal_round ≡ c.appeal_round
  pub same_deadline : c'.challenge_deadline ≡ c.challenge_deadline
  pub in_window : at < c.challenge_deadline
  pub bonded : min_challenge_bond_amount ≤ℤ r.bond
  pub named : c'.challenged_by ≡ some r.challenger

-- A new round after a challenge.
pub record IsAppeal (at : ℕ) (c c' : ResolutionCandidate) : Type 0 where
  pub keeps : Keeps c c'
  pub before : c.status ≡ challenged
  pub after : c'.status ≡ proposed
  pub room : c.appeal_round < max_appeal_rounds
  pub next_round : c'.appeal_round ≡ c.appeal_round + 1
  pub window_min : at + min_challenge_window_seconds ≤ c'.challenge_deadline
  pub v1_only : c.passphrase_hash ≡ none

-- The timelock of the administrator has passed over a challenge that stands.
pub record IsArbitrable (at : ℕ) (c : ResolutionCandidate) : Type 0 where
  pub disputed : c.status ≡ challenged
  pub waited : c.challenge_deadline + arbitration_timelock_seconds ≤ at

-- The window has passed with no challenge that stands, and the signature is still good.
pub record IsFinalizable (at : ℕ) (c : ResolutionCandidate) : Type 0 where
  pub undisputed : c.status ≡ proposed
  pub closed : c.challenge_deadline ≤ at
  pub unexpired : at ≤ c.signature_expiry

-- The end of a dispute, in the status `s`: nothing else changes but the time.
pub record IsClosing (at : ℕ) (s : CandidateStatus) (c c' : ResolutionCandidate) : Type 0 where
  pub keeps : Keeps c c'
  pub after : c'.status ≡ s
  pub same_outcome : c'.outcome ≡ c.outcome
  pub same_round : c'.appeal_round ≡ c.appeal_round
  pub at_time : c'.finalized_at ≡ some at

-- The docket with `c` written, and `rs` as the challengers of the candidate `k`.
abbrev pub file : ResolutionCandidate → Docket → Docket
file c d = record d {
  candidate = update d.candidate c.id (some c);
  by_market = update d.by_market c.market_id (some c.id);
}

abbrev pub set_challengers : ℕ → List ChallengeRecord → Docket → Docket
set_challengers k rs d = record d { challengers = update d.challengers k rs }

-- The moves at time `at`.
pub data Move (at : ℕ) (d d' : Docket) : Type 0 where
  opens :
      (c : ResolutionCandidate)
      → IsFiling at c
      → d.by_market c.market_id ≡ none
      → c.id ≡ d.counter + 1
      → d' ≡ record (file c d) { counter = c.id }
      → Move at d d'
  contests :
      (k : ℕ) (c c' : ResolutionCandidate) (r : ChallengeRecord)
      → d.candidate k ≡ some c
      → IsContest at r c c'
      → d' ≡ set_challengers k (d.challengers k ++ r ∷ []) (file c' d)
      → Move at d d'
  appeals :
      (k : ℕ) (c c' : ResolutionCandidate)
      → d.candidate k ≡ some c
      → IsAppeal at c c'
      → d' ≡ file c' d
      → Move at d d'
  upholds :
      (k : ℕ) (c c' : ResolutionCandidate)
      → d.candidate k ≡ some c
      → IsFinalizable at c ⊎ IsArbitrable at c
      → IsClosing at finalized c c'
      → d' ≡ set_challengers k [] (file c' d)
      → Move at d d'
  voids :
      (k : ℕ) (c c' : ResolutionCandidate)
      → d.candidate k ≡ some c
      → IsArbitrable at c
      → IsClosing at voided c c'
      → d' ≡ set_challengers k [] (file c' d)
      → Move at d d'
  stays : d' ≡ d → Move at d d'
