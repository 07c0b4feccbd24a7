-- ===== src/Resolution/Candidates.antt =====
-- The entry points that open and contest a candidate: `propose`, `propose_v2`, `challenge` and
-- `appeal` of contracts/resolution/src/lib.rs.
use vatix_contract.Prelude.{
  ℕ, ◌+◌, ℤ, Bool, none, some, [], ◌∷◌, ⊤, not, ltb, leb, ltb_ℤ, is_some, pure, ask, expect, ok_or,
  fail_if, ◌>>=◌, ◌>>◌, if◌then◌else◌, ◌^◌,
}
use vatix_contract.Resolution.Types.{
  Address, Bytes, candidate_not_found, candidate_already_exists, candidate_already_challenged,
  candidate_already_finalized, challenge_window_closed, invalid_signature_expiry,
  candidate_not_challenged, appeal_limit_exceeded, insufficient_bond, insufficient_challenge_bond,
  unauthorized, normal, trading_halted, proposed, challenged, finalized, voided, status_eq,
  ResolutionCandidate,
}
use vatix_contract.Resolution.World.{M}
use vatix_contract.Resolution.Storage.{
  assert_version, get_config, increment_candidate_id, get_candidate, set_candidate,
  get_candidate_id_for_market, append_challenger,
}
use vatix_contract.Resolution.Events.{
  emit_candidate_proposed, emit_candidate_challenged, emit_candidate_appealed,
}
use vatix_contract.Resolution.Guards.{
  max_appeal_rounds, min_bond_amount, min_challenge_bond_amount, add_u64, now, require_auth,
  require_not_paused, require_emergency_mode_allows, validate_challenge_window, validate_uri,
  transfer, get_collateral_token, require_market_active, verify_signature, verify_signature_v2,
}

unfoldable pub propose : Address → ℕ → Bool → Bytes → ℕ → Bytes → ℕ → ℤ → M ℕ
propose proposer market_id outcome signature signature_expiry evidence_uri window bond_amount = do
  require_auth proposer
  require_not_paused
  assert_version
  config ← get_config
  require_emergency_mode_allows (normal ∷ [])
  validate_uri evidence_uri
  validate_challenge_window window
  fail_if (ltb_ℤ bond_amount min_bond_amount) insufficient_bond
  existing ← get_candidate_id_for_market market_id
  fail_if (is_some existing) candidate_already_exists
  require_market_active config market_id
  verify_signature config market_id outcome signature
  collateral_token ← get_collateral_token config market_id
  proposed_at ← now
  fail_if (ltb signature_expiry proposed_at) invalid_signature_expiry
  id ← increment_candidate_id
  challenge_deadline ← add_u64 proposed_at window
  let candidate : ResolutionCandidate = record {
    id = id;
    market_id = market_id;
    outcome = outcome;
    signature = signature;
    signature_expiry = signature_expiry;
    proposer = proposer;
    evidence_uri = evidence_uri;
    proposed_at = proposed_at;
    challenge_deadline = challenge_deadline;
    status = proposed;
    challenged_by = none;
    challenge_uri = none;
    finalized_at = none;
    appeal_round = 0;
    bond_amount = bond_amount;
    epoch = 0;
    passphrase_hash = none;
  }
  set_candidate candidate
  emit_candidate_proposed candidate
  this ← ask (λ env. env.this)
  transfer collateral_token proposer this bond_amount
  pure id

unfoldable pub propose_v2 : Address → ℕ → Bool → Bytes → ℕ → ℕ → Bytes → Bytes → ℕ → ℤ → M ℕ
propose_v2 proposer market_id outcome signature valid_until epoch hash evidence_uri window
      bond_amount =
    do
      require_auth proposer
      assert_version
      config ← get_config
      require_emergency_mode_allows (normal ∷ [])
      validate_uri evidence_uri
      validate_challenge_window window
      fail_if (ltb_ℤ bond_amount min_bond_amount) insufficient_bond
      existing ← get_candidate_id_for_market market_id
      fail_if (is_some existing) candidate_already_exists
      require_market_active config market_id
      verify_signature_v2 config hash market_id outcome valid_until epoch signature
      collateral_token ← get_collateral_token config market_id
      proposed_at ← now
      fail_if (ltb valid_until proposed_at) invalid_signature_expiry
      id ← increment_candidate_id
      challenge_deadline ← add_u64 proposed_at window
      let candidate : ResolutionCandidate = record {
        id = id;
        market_id = market_id;
        outcome = outcome;
        signature = signature;
        signature_expiry = valid_until;
        proposer = proposer;
        evidence_uri = evidence_uri;
        proposed_at = proposed_at;
        challenge_deadline = challenge_deadline;
        status = proposed;
        challenged_by = none;
        challenge_uri = none;
        finalized_at = none;
        appeal_round = 0;
        bond_amount = bond_amount;
        epoch = epoch;
        passphrase_hash = some hash;
      }
      set_candidate candidate
      emit_candidate_proposed candidate
      this ← ask (λ env. env.this)
      transfer collateral_token proposer this bond_amount
      pure id

unfoldable pub challenge : Address → ℕ → Bytes → ℤ → M ⊤
challenge challenger candidate_id challenge_uri bond_amount = do
  require_auth challenger
  require_not_paused
  assert_version
  require_emergency_mode_allows (normal ∷ trading_halted ∷ [])
  validate_uri challenge_uri
  fail_if (ltb_ℤ bond_amount min_challenge_bond_amount) insufficient_challenge_bond
  found ← get_candidate candidate_id
  candidate ← ok_or found candidate_not_found
  fail_if (status_eq candidate.status finalized) candidate_already_finalized
  fail_if (status_eq candidate.status voided) candidate_already_finalized
  fail_if (status_eq candidate.status challenged) candidate_already_challenged
  at ← now
  fail_if (leb candidate.challenge_deadline at) challenge_window_closed
  config ← get_config
  collateral_token ← get_collateral_token config candidate.market_id
  set_candidate (record candidate {
    status = challenged;
    challenged_by = some challenger;
    challenge_uri = some challenge_uri;
  })
  append_challenger candidate_id challenger bond_amount
  this ← ask (λ env. env.this)
  transfer collateral_token challenger this bond_amount
  emit_candidate_challenged candidate_id candidate.market_id challenger challenge_uri bond_amount

-- The u32 sum `appeal_round += 1` panics past 2^32 - 1.
unfoldable pub appeal : Address → ℕ → Bool → Bytes → Bytes → ℕ → M ⊤
appeal proposer candidate_id outcome signature evidence_uri window = do
  require_auth proposer
  require_not_paused
  assert_version
  config ← get_config
  require_emergency_mode_allows (normal ∷ [])
  validate_uri evidence_uri
  validate_challenge_window window
  found ← get_candidate candidate_id
  candidate ← ok_or found candidate_not_found
  fail_if (not (status_eq candidate.status challenged)) candidate_not_challenged
  fail_if (leb max_appeal_rounds candidate.appeal_round) appeal_limit_exceeded
  fail_if (is_some candidate.passphrase_hash) unauthorized
  require_market_active config candidate.market_id
  verify_signature config candidate.market_id outcome signature
  proposed_at ← now
  challenge_deadline ← add_u64 proposed_at window
  let round = candidate.appeal_round + 1
  appeal_round ← expect (if ltb round (2 ^ 32) then some round else none)
  let appealed = record candidate {
    outcome = outcome;
    signature = signature;
    evidence_uri = evidence_uri;
    proposed_at = proposed_at;
    challenge_deadline = challenge_deadline;
    status = proposed;
    challenged_by = none;
    challenge_uri = none;
    appeal_round = appeal_round;
  }
  set_candidate appealed
  emit_candidate_appealed appealed
