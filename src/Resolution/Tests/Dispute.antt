-- ===== src/Resolution/Tests/Dispute.antt =====
-- A dispute played through on concrete data: a host, the calls, and what they leave in the storage.
use vatix_contract.Prelude.{
  ◌≢◌, ℕ, ℤ, pos, true, false, none, some, List, [], ◌∷◌, ok, ◌≡◌, refl, ◌++◌, Every, unwrap_or,
  ltb, ◌+ℤ◌, ◌-ℤ◌, ◌*ℤ◌, ◌/ℤ◌, arith,
}
use vatix_contract.Resolution.Types.{
  Bytes, ResolutionConfig, normal, global_freeze, proposed, challenged, finalized, active,
  ResolutionCandidate,
}
use vatix_contract.Resolution.World.{Env, fresh}
use vatix_contract.Resolution.Guards.{fill_digits, market_id_to_string}
use vatix_contract.Resolution.Bonds.{
  split_amounts, pay_split, split_bond, slash_each, settle_list, settle_challengers_as_losers,
  refund_proposer,
}
use vatix_contract.Resolution.Terminal.Payout.{pay_upheld}
use vatix_contract.Resolution.Admin
use vatix_contract.Resolution.Candidates
use vatix_contract.Resolution.Terminal
use vatix_contract.Resolution.History.{
  Request, initialize, propose, propose_v2, challenge, appeal, finalize, arbitrate_uphold_proposer,
  pause, propose_treasury, execute_treasury, exec, step, run,
}
use vatix_contract.Resolution.Solvency.{IsHost}
use vatix_contract.Resolution.Solvency.Always.{Bonded}
use vatix_contract.Resolution.Calls.Completion.{IsAnswering, Splits}
use vatix_contract.Resolution.Timelock.{treasury, executes}

-- A host at time `at` where everyone signs but the contract, and every call of another contract
-- returns.
abbrev pub host : ℕ → Env
host at = record {
  this = 100;
  timestamp = at;
  authorized = λ a. ltb a 100;
  executable = λ a. false;
  transfer_returns = λ l t a b n. true;
  burn_returns = λ l t a n. true;
  market_call_returns = λ l m c. true;
  get_market_status = λ l m k. some active;
  get_collateral_token = λ l m k. some 7;
  verify_signature = λ l m k o s. ok tt;
  verify_signature_v2 = λ l m h k o v e s. ok tt;
}

abbrev pub uri : Bytes
uri = b'u' ∷ []

abbrev pub bond : ℤ
bond = pos 10000000

-- Initialized by 1, proposed by 2, challenged by 3 and appealed.
abbrev pub disputed : List (Env × Request)
disputed =
    (host 1000, initialize 1 4 5 3600)
    ∷ (host 2000, propose 2 42 true (9 ∷ []) 1000000 uri 3600 bond)
    ∷ (host 3000, challenge 3 1 uri bond)
    ∷ (host 4000, appeal 2 1 true (8 ∷ []) uri 3600)
    ∷ []

abbrev pub ending : List (Env × Request)
ending = (host 8000, finalize 6 1) ∷ []

abbrev pub first_call : List (Env × Request)
first_call = (host 1000, initialize 1 4 5 3600) ∷ []

abbrev pub two_calls : List (Env × Request)
two_calls =
    (host 1000, initialize 1 4 5 3600)
    ∷ (host 2000, propose 2 42 true (9 ∷ []) 1000000 uri 3600 bond)
    ∷ []

abbrev pub later : List (Env × Request)
later = (host 9000, finalize 6 1) ∷ (host 9000, challenge 3 1 uri bond) ∷ []

abbrev pub appealed : ResolutionCandidate
appealed = record {
  id = 1;
  market_id = 42;
  outcome = true;
  signature = 8 ∷ [];
  signature_expiry = 1000000;
  proposer = 2;
  evidence_uri = uri;
  proposed_at = 4000;
  challenge_deadline = 7600;
  status = proposed;
  challenged_by = none;
  challenge_uri = none;
  finalized_at = none;
  appeal_round = 1;
  bond_amount = bond;
  epoch = 0;
  passphrase_hash = none;
}

abbrev pub closed : ResolutionCandidate
closed = record appealed { status = finalized; finalized_at = some 8000 }

pub disputed-candidate : (run disputed fresh).storage.candidate 1 ≡ some appealed
unfolding run step exec Admin.initialize Candidates.propose Candidates.challenge Candidates.appeal
disputed-candidate = refl

pub disputed-market : (run disputed fresh).storage.candidate_by_market 42 ≡ some 1
unfolding run step exec Admin.initialize Candidates.propose Candidates.challenge Candidates.appeal
disputed-market = refl

pub paused-flag : (run (disputed ++ (host 7000, pause 1) ∷ []) fresh).storage.paused ≡ some true
unfolding run step exec Admin.initialize Admin.pause Candidates.propose Candidates.challenge
    Candidates.appeal
paused-flag = refl

pub ended-candidate : (run ending (run disputed fresh)).storage.candidate 1 ≡ some closed
unfolding run step exec Admin.initialize Candidates.propose Candidates.challenge Candidates.appeal
    Terminal.finalize Terminal.close_finalized pay_upheld refund_proposer
    settle_challengers_as_losers settle_list slash_each split_bond split_amounts pay_split
    fill_digits market_id_to_string ◌+ℤ◌ ◌-ℤ◌ ◌*ℤ◌ ◌/ℤ◌
ended-candidate = refl

pub ended-run : (run (disputed ++ ending) fresh).storage.candidate 1 ≡ some closed
unfolding run step exec Admin.initialize Candidates.propose Candidates.challenge Candidates.appeal
    Terminal.finalize Terminal.close_finalized pay_upheld refund_proposer
    settle_challengers_as_losers settle_list slash_each split_bond split_amounts pay_split
    fill_digits market_id_to_string ◌+ℤ◌ ◌-ℤ◌ ◌*ℤ◌ ◌/ℤ◌
ended-run = refl

pub opened-world :
    exec (propose 2 42 true (9 ∷ []) 1000000 uri 3600 bond) (host 2000) (run first_call fresh)
    ≡ ok (tt, run two_calls fresh)
unfolding run step exec Admin.initialize Candidates.propose
opened-world = refl

pub finalize-returns :
    Terminal.finalize 6 1 (host 8000) (run disputed fresh)
    ≡ ok (closed, run (disputed ++ ending) fresh)
unfolding run step exec Admin.initialize Candidates.propose Candidates.challenge Candidates.appeal
    Terminal.finalize Terminal.close_finalized pay_upheld refund_proposer
    settle_challengers_as_losers settle_list slash_each split_bond split_amounts pay_split
    fill_digits market_id_to_string ◌+ℤ◌ ◌-ℤ◌ ◌*ℤ◌ ◌/ℤ◌
finalize-returns = refl

-- A V2 candidate that the administrator upholds.
abbrev pub disputed_v2 : List (Env × Request)
disputed_v2 =
    (host 1000, initialize 1 4 5 3600)
    ∷ (host 2000, propose_v2 2 42 true (9 ∷ []) 1000000 3 (6 ∷ []) uri 3600 bond)
    ∷ (host 3000, challenge 3 1 uri bond)
    ∷ []

abbrev pub upheld_v2 : ResolutionCandidate
upheld_v2 = record {
  id = 1;
  market_id = 42;
  outcome = true;
  signature = 9 ∷ [];
  signature_expiry = 1000000;
  proposer = 2;
  evidence_uri = uri;
  proposed_at = 2000;
  challenge_deadline = 5600;
  status = finalized;
  challenged_by = some 3;
  challenge_uri = some uri;
  finalized_at = some 200000;
  appeal_round = 0;
  bond_amount = bond;
  epoch = 3;
  passphrase_hash = some (6 ∷ []);
}

pub arbitrate-returns :
    Terminal.arbitrate_uphold_proposer 1 1 (host 200000) (run disputed_v2 fresh)
    ≡ ok (upheld_v2, run (disputed_v2 ++ (host 200000, arbitrate_uphold_proposer 1 1) ∷ []) fresh)
unfolding run step exec Admin.initialize Candidates.propose_v2 Candidates.challenge
    Terminal.arbitrate_uphold_proposer Terminal.close_arbitrated pay_upheld refund_proposer
    settle_challengers_as_losers settle_list slash_each split_bond split_amounts pay_split
    fill_digits market_id_to_string ◌+ℤ◌ ◌-ℤ◌ ◌*ℤ◌ ◌/ℤ◌
arbitrate-returns = refl

pub host-IsHost : (at : ℕ) → IsHost 100 (λ m. 7) (host at)
host-IsHost at = record { at_self = refl; unsigned = refl; fixed_token = λ c m t w h. ground arith }

pub ended-Every : Every (λ c. Bonded c.1 × IsHost 100 (λ m. 7) c.0) (disputed ++ ending)
ended-Every = (
  (tt, host-IsHost 1000),
  (
    (tt, host-IsHost 2000),
    ((tt, host-IsHost 3000), ((tt, host-IsHost 4000), ((tt, host-IsHost 8000), tt))),
  ),
)

pub host-IsAnswering : (at : ℕ) → IsAnswering (host at)
host-IsAnswering at = record {
  transfers = λ l t a b n. refl;
  burns = λ l t a n. refl;
  calls = λ l a c. refl;
  tokens = λ l a m. (7, refl);
}

-- A change of the treasury, proposed and not yet applied.
abbrev pub rotation : List (Env × Request)
rotation = (host 1000, initialize 1 4 5 3600) ∷ (host 2000, propose_treasury 1 77) ∷ []

pub rotation-returns :
    executes treasury (host 200000) (run rotation fresh)
    ≡ ok (77, run (rotation ++ (host 200000, execute_treasury) ∷ []) fresh)
unfolding run step exec Admin.initialize Admin.propose_treasury Admin.execute_treasury
rotation-returns = refl

abbrev pub settings : ResolutionConfig
settings = record { admin = 1; factory = 4; market_contract = 5; challenge_window_secs = 3600 }

pub disputed-settings :
    (unwrap_or (run disputed fresh).storage.paused false ≡ false)
    × ((run disputed fresh).storage.storage_version ≡ some 1)
    × ((run disputed fresh).storage.config ≡ some settings)
    × (unwrap_or (run disputed fresh).storage.emergency_mode normal ≡ normal)
    × ((run disputed fresh).storage.challengers 1
        ≡ some (record { challenger = 3; bond = bond } ∷ []))
unfolding run step exec Admin.initialize Candidates.propose Candidates.challenge Candidates.appeal
disputed-settings = (refl, refl, refl, refl, refl)

pub disputed-thawed : unwrap_or (run disputed fresh).storage.emergency_mode normal ≢ global_freeze
disputed-thawed = rw disputed-settings.3 (λ h. absurd (cc))

pub disputed-Splits :
    Every
      (Splits (host 8000) (host-IsAnswering 8000))
      (unwrap_or ((run disputed fresh).storage.challengers 1) [])
disputed-Splits = rw (disputed-settings.4) (omega arith, tt)

-- A candidate whose signature expires before its window ends.
abbrev pub short_lived : Request
short_lived = propose 2 42 true (9 ∷ []) 3000 uri 3600 bond

pub short_lived-returns :
    Candidates.propose 2 42 true (9 ∷ []) 3000 uri 3600 bond (host 2000) (run first_call fresh)
    ≡ ok (1, run (first_call ++ (host 2000, short_lived) ∷ []) fresh)
unfolding run step exec Admin.initialize Candidates.propose
short_lived-returns = refl

abbrev pub contested_v2 : ResolutionCandidate
contested_v2 = record upheld_v2 { status = challenged; finalized_at = none }

pub contested-settings :
    (unwrap_or (run disputed_v2 fresh).storage.paused false ≡ false)
    × ((run disputed_v2 fresh).storage.storage_version ≡ some 1)
    × ((run disputed_v2 fresh).storage.config ≡ some settings)
    × ((run disputed_v2 fresh).storage.candidate 1 ≡ some contested_v2)
unfolding run step exec Admin.initialize Candidates.propose_v2 Candidates.challenge
contested-settings = (refl, refl, refl, refl)
