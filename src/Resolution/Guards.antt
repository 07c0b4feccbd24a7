-- ===== src/Resolution/Guards.antt =====
-- The guards, the constants and the calls of other contracts at the end of
-- contracts/resolution/src/lib.rs.
use vatix_contract.Prelude.{
  ℕ, zero, suc, ◌+◌, ◌/◌, ◌%◌, ◌^◌, ℤ, pos, Bool, false, Option, none, some, List, [], ◌∷◌, ◌||◌,
  not, ⊤, ltb, ◌==◌, if◌then◌else◌, length, ask, gets, expect, propagate, fail_if, trap_unless,
  ◌>>=◌, ◌>>◌,
}
use vatix_contract.Resolution.Types.{
  Address, Bytes, not_admin, contract_paused, emergency_mode_active, invalid_challenge_window,
  invalid_evidence_uri, market_already_resolved, not_arbitrable, arbitration_timelock_not_elapsed,
  EmergencyMode, mode_eq, challenged, status_eq, is_active, ResolutionCandidate, ResolutionConfig,
}
use vatix_contract.Resolution.World.{MarketCall, Effect, Log, M}
use vatix_contract.Resolution.Storage.{is_paused, get_emergency_mode}
use vatix_contract.Resolution.Events.{log_effect}

abbrev pub min_challenge_window_seconds : ℕ
min_challenge_window_seconds = 60

abbrev pub max_challenge_window_seconds : ℕ
max_challenge_window_seconds = 1209600

abbrev pub max_uri_bytes : ℕ
max_uri_bytes = 512

abbrev pub max_appeal_rounds : ℕ
max_appeal_rounds = 3

abbrev pub min_bond_amount : ℤ
min_bond_amount = pos 10000000

abbrev pub min_challenge_bond_amount : ℤ
min_challenge_bond_amount = pos 10000000

abbrev pub arbitration_timelock_seconds : ℕ
arbitration_timelock_seconds = 172800

abbrev pub address_timelock_seconds : ℕ
address_timelock_seconds = 172800

-- A u64 sum, which panics past 2^64 - 1.
abbrev pub add_u64 : ℕ → ℕ → M ℕ
add_u64 a b = expect (if ltb (a + b) (2 ^ 64) then some (a + b) else none)

abbrev pub now : M ℕ
now = ask (λ env. env.timestamp)

abbrev pub require_auth : Address → M ⊤
require_auth a = do signed ← ask (λ env. env.authorized a); trap_unless signed

abbrev pub require_admin : Address → ResolutionConfig → M ⊤
require_admin admin config = fail_if (not (admin == config.admin)) not_admin

abbrev pub require_not_paused : M ⊤
require_not_paused = do paused ← is_paused; fail_if paused contract_paused

abbrev pub allows : List EmergencyMode → EmergencyMode → Bool
allows [] current = false
allows (m ∷ ms) current = mode_eq m current || allows ms current

abbrev pub require_emergency_mode_allows : List EmergencyMode → M ⊤
require_emergency_mode_allows allowed_modes = do
  current ← get_emergency_mode
  fail_if (not (allows allowed_modes current)) emergency_mode_active

abbrev pub validate_challenge_window : ℕ → M ⊤
validate_challenge_window seconds =
    fail_if (ltb seconds min_challenge_window_seconds || ltb max_challenge_window_seconds seconds)
      invalid_challenge_window

abbrev pub validate_uri : Bytes → M ⊤
validate_uri uri = fail_if (length uri == 0 || ltb max_uri_bytes (length uri)) invalid_evidence_uri

-- The loop of `market_id_to_string`: `slots` is what of the ten-byte buffer is not filled yet, and
-- `none` the panic when its index would fall below 0.
unfoldable pub fill_digits : ℕ → ℕ → Bytes → Option Bytes
fill_digits zero n digits = if n == 0 then some digits else none
fill_digits (suc slots) n digits =
    let rest = fill_digits slots (n / 10) ((b'0' + n % 10) ∷ digits) in
    if n == 0 then some digits else rest

-- The bytes are ASCII digits, so `from_utf8` does not fail.
unfoldable pub market_id_to_string : ℕ → Option Bytes
unfolding fill_digits
market_id_to_string n = if n == 0 then some (b'0' ∷ []) else fill_digits 10 n []

-- Calls of other contracts: a call that does not return traps.
abbrev log_so_far : M Log
log_so_far = gets (λ w. w.log)

abbrev pub transfer : Address → Address → Address → ℤ → M ⊤
transfer token from to amount = do
  returns ← ask (λ env. env.transfer_returns)
  log ← log_so_far
  trap_unless (returns log token from to amount)
  log_effect (Effect.transfer token from to amount)

abbrev pub burn : Address → Address → ℤ → M ⊤
burn token from amount = do
  returns ← ask (λ env. env.burn_returns)
  log ← log_so_far
  trap_unless (returns log token from amount)
  log_effect (Effect.burn token from amount)

abbrev pub invoke_market : Address → MarketCall → M ⊤
invoke_market contract call = do
  returns ← ask (λ env. env.market_call_returns)
  log ← log_so_far
  trap_unless (returns log contract call)
  log_effect (Effect.invoke contract call)

abbrev pub get_collateral_token : ResolutionConfig → ℕ → M Address
get_collateral_token config market_id = do
  answer ← ask (λ env. env.get_collateral_token)
  log ← log_so_far
  expect (answer log config.market_contract market_id)

abbrev pub require_market_active : ResolutionConfig → ℕ → M ⊤
require_market_active config market_id = do
  answer ← ask (λ env. env.get_market_status)
  log ← log_so_far
  status ← expect (answer log config.market_contract market_id)
  fail_if (not (is_active status)) market_already_resolved

abbrev pub verify_signature : ResolutionConfig → ℕ → Bool → Bytes → M ⊤
verify_signature config market_id outcome signature = do
  answer ← ask (λ env. env.verify_signature)
  log ← log_so_far
  propagate (answer log config.market_contract market_id outcome signature)

abbrev pub verify_signature_v2 : ResolutionConfig → Bytes → ℕ → Bool → ℕ → ℕ → Bytes → M ⊤
verify_signature_v2 config passphrase_hash market_id outcome valid_until epoch signature = do
  answer ← ask (λ env. env.verify_signature_v2)
  log ← log_so_far
  propagate (
      answer log config.market_contract passphrase_hash market_id outcome valid_until epoch
        signature)

abbrev pub require_arbitrable : ResolutionCandidate → M ⊤
require_arbitrable candidate = do
  fail_if (not (status_eq candidate.status challenged)) not_arbitrable
  eta ← add_u64 candidate.challenge_deadline arbitration_timelock_seconds
  at ← now
  fail_if (ltb at eta) arbitration_timelock_not_elapsed
