-- ===== src/Resolution/Terminal.antt =====
-- The entry points that end a dispute: `finalize`, `arbitrate_uphold_proposer` and `void_market` of
-- contracts/resolution/src/lib.rs.
pub mod Payout
pub mod Settlement
pub mod Inversion
use vatix_contract.Prelude.{
  ℕ, pos, none, some, [], ◌∷◌, List, ⊤, not, ◌||◌, ltb, ltb_ℤ, last, pure, ask, ok_or, fail_if,
  when, ◌>>=◌, ◌>>◌,
}
use vatix_contract.Resolution.Types.{
  Address, candidate_not_found, candidate_already_challenged, candidate_already_finalized,
  challenge_window_open, signature_expired, normal, trading_halted, settle_only, challenged,
  finalized, voided, status_eq, CandidateStatus, ResolutionCandidate, ResolutionConfig,
}
use vatix_contract.Resolution.World.{MarketCall, M}
use vatix_contract.Resolution.Storage.{
  assert_version, get_config, get_candidate, set_candidate, get_challengers, clear_challengers,
}
use vatix_contract.Resolution.Events.{
  emit_candidate_finalized, emit_candidate_arbitrated, emit_market_voided,
}
use vatix_contract.Resolution.Guards.{
  now, require_auth, require_admin, require_not_paused, require_emergency_mode_allows,
  get_collateral_token, require_arbitrable, invoke_market,
}
use vatix_contract.Resolution.Bonds.{resolve_v1, resolve}
use vatix_contract.Resolution.Terminal.Payout.{pay_upheld, pay_voided}

-- `finalize` up to its payments: the guards, the write of the closed candidate, and the second read
-- that confirms it.
unfoldable pub close_finalized : Address → ℕ → M (ResolutionConfig × ResolutionCandidate)
close_finalized finalizer candidate_id = do
  require_auth finalizer
  require_not_paused
  assert_version
  config ← get_config
  require_emergency_mode_allows (normal ∷ trading_halted ∷ settle_only ∷ [])
  found ← get_candidate candidate_id
  candidate ← ok_or found candidate_not_found
  fail_if (status_eq candidate.status finalized || status_eq candidate.status voided)
      candidate_already_finalized
  fail_if (status_eq candidate.status challenged) candidate_already_challenged
  at ← now
  fail_if (ltb at candidate.challenge_deadline) challenge_window_open
  fail_if (ltb candidate.signature_expiry at) signature_expired
  let closed = record candidate { status = finalized; finalized_at = some at }
  set_candidate closed
  again ← get_candidate candidate_id
  stored ← ok_or again candidate_not_found
  fail_if (not (status_eq stored.status finalized)) candidate_not_found
  pure (config, closed)

unfoldable pub finalize : Address → ℕ → M ResolutionCandidate
finalize finalizer candidate_id = do
  (config, closed) ← close_finalized finalizer candidate_id
  pay_upheld config candidate_id closed
  emit_candidate_finalized closed
  resolve config closed
  pure closed

-- `arbitrate_uphold_proposer` and `void_market` up to their payments.
unfoldable pub close_arbitrated :
    CandidateStatus → Address → ℕ → M (ResolutionConfig × ResolutionCandidate)
close_arbitrated status admin candidate_id = do
  require_auth admin
  require_not_paused
  assert_version
  config ← get_config
  require_admin admin config
  found ← get_candidate candidate_id
  candidate ← ok_or found candidate_not_found
  require_arbitrable candidate
  at ← now
  let closed = record candidate { status = status; finalized_at = some at }
  set_candidate closed
  pure (config, closed)

unfoldable pub arbitrate_uphold_proposer : Address → ℕ → M ResolutionCandidate
arbitrate_uphold_proposer admin candidate_id = do
  (config, closed) ← close_arbitrated finalized admin candidate_id
  pay_upheld config candidate_id closed
  emit_candidate_arbitrated candidate_id closed.market_id closed.outcome
  resolve_v1 config closed
  pure closed

unfoldable pub void_market : Address → ℕ → M ResolutionCandidate
void_market admin candidate_id = do
  (config, closed) ← close_arbitrated voided admin candidate_id
  pay_voided config candidate_id closed
  emit_market_voided candidate_id closed.market_id
  this ← ask (λ env. env.this)
  invoke_market config.market_contract (MarketCall.void_market this closed.market_id)
  pure closed
