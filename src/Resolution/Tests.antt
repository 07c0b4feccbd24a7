-- ===== src/Resolution/Tests.antt =====
-- The theorems on the resolution contract, applied to a dispute on concrete data.
mod Dispute
use vatix_contract.Prelude.{
  ◌≢◌, ℕ, ℤ, pos, true, false, none, some, List, [], ◌∷◌, ok, err, ◌≡◌, refl, ◌<◌, ◌≤◌, ◌++◌, Every,
  unwrap_or, length, ltb, inl, ◌+ℤ◌, ◌-ℤ◌, ◌*ℤ◌, ◌/ℤ◌, arith,
}
use vatix_contract.Resolution.Types.{
  voided, Bytes, ResolutionConfig, ChallengeRecord, normal, global_freeze, contract_paused,
  proposed, finalized, active, ResolutionCandidate,
}
use vatix_contract.Resolution.World.{Env, World, fresh, resolve_market}
use vatix_contract.Resolution.Guards.{fill_digits, market_id_to_string}
use vatix_contract.Resolution.Bonds.{
  split_amounts, pay_split, split_bond, slash_each, settle_list, settle_challengers_as_losers,
  refund_proposer,
}
use vatix_contract.Resolution.Terminal.Payout.{pay_upheld}
use vatix_contract.Resolution.Admin
use vatix_contract.Resolution.Candidates
use vatix_contract.Resolution.Terminal
use vatix_contract.Resolution.History.{
  Request, initialize, propose, propose_v2, challenge, appeal, finalize, arbitrate_uphold_proposer,
  pause, propose_treasury, execute_treasury, exec, step, run,
}
use vatix_contract.Resolution.Lifecycle.{docket, Move}
use vatix_contract.Resolution.Lifecycle.Invariant.{IsSound}
use vatix_contract.Resolution.History.Moves.{exec-Move}
use vatix_contract.Resolution.History.Safety.{run-candidate, run-market, run-closed}
use vatix_contract.Resolution.History.Continuity.{Continues, run-Continues, run-challengers_le}
use vatix_contract.Resolution.Solvency.{IsSolvent, IsHost}
use vatix_contract.Resolution.Solvency.Always.{Bonded, run-IsSolvent}
use vatix_contract.Resolution.Bonds.Split.{split_amounts_lem}
use vatix_contract.Resolution.Calls.Pausing.{of_finalize, exec-paused}
use vatix_contract.Resolution.Calls.Completion.{IsAnswering, Splits, finalize-Returns}
use vatix_contract.Resolution.Timelock.{treasury, executes}
use vatix_contract.Resolution.Timelock.Delay.{Some, IsDue, executes-IsDue}
use vatix_contract.Resolution.Calls.Arbitration.{void_market-Returns}
use vatix_contract.Resolution.Calls.Stranding.{propose-finalize}
use vatix_contract.Resolution.Calls.Callback.{
  scheme_call, CallsBack, finalize-CallsBack, arbitrate_uphold_proposer-CallsBack,
}
use vatix_contract.Resolution.Tests.Dispute.{
  contested_v2, contested-settings, host, uri, bond, disputed, ending, first_call, two_calls, later,
  appealed, closed, disputed-candidate, disputed-market, paused-flag, ended-candidate, ended-run,
  opened-world, finalize-returns, disputed_v2, upheld_v2, arbitrate-returns, host-IsHost,
  ended-Every, host-IsAnswering, rotation, rotation-returns, settings, disputed-settings,
  disputed-thawed, disputed-Splits, short_lived, short_lived-returns,
}

propose-finalize_example :
    Terminal.finalize 6 1 (host 8000) (run (first_call ++ (host 2000, short_lived) ∷ []) fresh)
    ≢ ok (appealed, fresh)
propose-finalize_example =
    propose-finalize 2 42 true (9 ∷ []) 3000 uri 3600 bond 1 (host 2000) (run first_call fresh)
      (run (first_call ++ (host 2000, short_lived) ∷ []) fresh) short_lived-returns (omega arith) 6
      (host 8000) (run (first_call ++ (host 2000, short_lived) ∷ []) fresh) fresh appealed refl

executes-IsDue_example : Some (IsDue treasury 77 200000) rotation
executes-IsDue_example =
    executes-IsDue treasury rotation (host 200000) 77
      (run (rotation ++ (host 200000, execute_treasury) ∷ []) fresh) rotation-returns

finalize-Returns_example :
    (w' : World) × (Terminal.finalize 6 1 (host 8000) (run disputed fresh) ≡ ok (closed, w'))
finalize-Returns_example =
    finalize-Returns (host 8000) (host-IsAnswering 8000) 6 1 settings appealed (run disputed fresh)
      refl disputed-settings.0 disputed-settings.1 disputed-settings.2 disputed-thawed
      disputed-candidate refl
      (record { undisputed = refl; closed = omega arith; unexpired = omega arith }) (omega arith)
      disputed-Splits

run-IsSolvent_example : IsSolvent (λ m. 7) 7 100 (run (disputed ++ ending) fresh)
run-IsSolvent_example = run-IsSolvent (λ m. 7) 7 100 (disputed ++ ending) ended-Every

run-candidate_example :
    (appealed.id ≡ 1)
    × (0 < 1)
    × (1 ≤ unwrap_or (run disputed fresh).storage.candidate_counter 0)
    × ((run disputed fresh).storage.candidate_by_market 42 ≡ some 1)
    × IsSound appealed (unwrap_or ((run disputed fresh).storage.challengers 1) [])
run-candidate_example = run-candidate disputed 1 appealed disputed-candidate

run-market_example :
    (c : ResolutionCandidate) × ((run disputed fresh).storage.candidate 1 ≡ some c)
    × (c.market_id ≡ 42)
run-market_example = run-market disputed 42 1 disputed-market

exec-Move_example :
    Move 2000 (docket (run first_call fresh).storage) (docket (run two_calls fresh).storage)
exec-Move_example =
    exec-Move (propose 2 42 true (9 ∷ []) 1000000 uri 3600 bond) (host 2000) (run first_call fresh)
      (run two_calls fresh) opened-world

run-closed_example : (run later (run (disputed ++ ending) fresh)).storage.candidate 1 ≡ some closed
run-closed_example = run-closed (disputed ++ ending) later 1 closed ended-run (inl refl)

run-Continues_example :
    Continues (docket (run ending (run disputed fresh)).storage) 1 appealed
    × ((run ending (run disputed fresh)).storage.candidate_by_market 42 ≡ some 1)
run-Continues_example = run-Continues disputed ending 1 appealed disputed-candidate

run-challengers_le_example : length (unwrap_or ((run disputed fresh).storage.challengers 1) []) ≤ 4
run-challengers_le_example = run-challengers_le disputed 1

split_amounts_lem_example :
    split_amounts (pos 10000003) ≡ some (pos 5000001, pos 2500000, pos 2500002)
split_amounts_lem_example = split_amounts_lem 10000003

exec-paused_example :
    exec (finalize 6 1) (host 8000) (run (disputed ++ (host 7000, pause 1) ∷ []) fresh)
    ≡ err contract_paused
exec-paused_example =
    exec-paused (finalize 6 1) 6 (host 8000) (run (disputed ++ (host 7000, pause 1) ∷ []) fresh)
      (of_finalize 1) refl paused-flag

finalize-CallsBack_example :
    (config : ResolutionConfig) × ((run disputed fresh).storage.config ≡ some config)
    × CallsBack
        (host 8000)
        config
        closed
        (λ id. scheme_call 100 id closed)
        (run (disputed ++ ending) fresh)
finalize-CallsBack_example =
    finalize-CallsBack 6 1 (host 8000) (run disputed fresh) (run (disputed ++ ending) fresh) closed
      finalize-returns

arbitrate_uphold_proposer-CallsBack_example :
    (config : ResolutionConfig) × ((run disputed_v2 fresh).storage.config ≡ some config)
    × CallsBack
        (host 200000)
        config
        upheld_v2
        (λ id. resolve_market 100 id true (9 ∷ []) 1000000)
        (run (disputed_v2 ++ (host 200000, arbitrate_uphold_proposer 1 1) ∷ []) fresh)
arbitrate_uphold_proposer-CallsBack_example =
    arbitrate_uphold_proposer-CallsBack 1 1 (host 200000) (run disputed_v2 fresh)
      (run (disputed_v2 ++ (host 200000, arbitrate_uphold_proposer 1 1) ∷ []) fresh) upheld_v2
      arbitrate-returns

void_market-Returns_example :
    (w' : World) × (Terminal.void_market 1 1 (host 200000) (run disputed_v2 fresh)
      ≡ ok (record contested_v2 { status = voided; finalized_at = some 200000 }, w'))
void_market-Returns_example =
    void_market-Returns (host 200000) (host-IsAnswering 200000) 1 1 settings contested_v2
      (run disputed_v2 fresh) refl contested-settings.0 contested-settings.1 contested-settings.2
      refl contested-settings.3 (record { disputed = refl; waited = omega arith }) (omega arith)
      (omega arith)
