-- ===== src/Resolution/Bonds.antt =====
-- How bonds are paid out: `split_bond`, `settle_challengers_as_losers`, the refunds of `void_market`
-- and the call-back into the market of contracts/resolution/src/lib.rs.
pub mod Split
pub mod Payments
use vatix_contract.Prelude.{
  ℕ, ℤ, pos, none, some, Option, List, [], ◌∷◌, ⊤, leb_ℤ, ltb_ℤ, checked_mul, checked_sub, ◌/ℤ◌,
  pure, ask, expect, when, ◌>>=◌, ◌>>◌, if◌then◌else◌,
}
use vatix_contract.Resolution.Types.{
  Address, ChallengeRecord, ResolutionCandidate, ResolutionConfig,
}
use vatix_contract.Resolution.World.{MarketCall, M}
use vatix_contract.Resolution.Storage.{get_treasury, get_challengers, clear_challengers}
use vatix_contract.Resolution.Events.{emit_bond_slashed, emit_bond_refunded}
use vatix_contract.Resolution.Guards.{transfer, burn, invoke_market, market_id_to_string}

abbrev pub reward_bps : ℤ
reward_bps = pos 5000

abbrev pub burn_bps : ℤ
burn_bps = pos 2500

abbrev pub bps_denominator : ℕ
bps_denominator = 10000

-- The three parts of a forfeited bond: to the winner, burned, to the treasury. `none` is the panic
-- of a product that is no i128.
unfoldable pub split_amounts : ℤ → Option (ℤ × ℤ × ℤ)
split_amounts total = elim (checked_mul total reward_bps) [
  | none ↦ none
  | some r ↦ elim (checked_mul total burn_bps) [
    | none ↦ none
    | some b ↦ elim (checked_sub total (r /ℤ bps_denominator)) [
      | none ↦ none
      | some left ↦ elim (checked_sub left (b /ℤ bps_denominator)) [
        | none ↦ none
        | some cut ↦ some (r /ℤ bps_denominator, b /ℤ bps_denominator, cut)
      ]
    ]
  ]
]

abbrev pub pay_treasury : Address → Option Address → ℤ → M ⊤
pay_treasury token none amount = pure tt
pay_treasury token (some treasury) amount = do
  this ← ask (λ env. env.this)
  transfer token this treasury amount

unfoldable pub pay_split : ℕ → ℕ → Address → Address → Address → ℤ → ℤ × ℤ × ℤ → M ⊤
pay_split candidate_id market_id token loser winner total (reward, burned, treasury_cut) = do
  this ← ask (λ env. env.this)
  when (ltb_ℤ (pos 0) reward) (transfer token this winner reward)
  when (ltb_ℤ (pos 0) burned) (burn token this burned)
  when (ltb_ℤ (pos 0) treasury_cut)
      (do treasury ← get_treasury; pay_treasury token treasury treasury_cut)
  emit_bond_slashed candidate_id market_id loser winner total reward burned treasury_cut

unfoldable pub split_bond : ℕ → ℕ → Address → Address → Address → ℤ → M ⊤
split_bond candidate_id market_id token loser winner total =
    if leb_ℤ total (pos 0) then pure tt else do
      parts ← expect (split_amounts total)
      pay_split candidate_id market_id token loser winner total parts

-- The `for` loop of `settle_challengers_as_losers`.
unfoldable pub slash_each : ℕ → ResolutionCandidate → Address → List ChallengeRecord → M ⊤
slash_each candidate_id candidate token [] = pure tt
slash_each candidate_id candidate token (r ∷ rs) = do
  split_bond candidate_id candidate.market_id token r.challenger candidate.proposer r.bond
  slash_each candidate_id candidate token rs

-- The rest of `settle_challengers_as_losers`, after its read of the list.
unfoldable pub settle_list : ℕ → ResolutionCandidate → Address → List ChallengeRecord → M ⊤
settle_list candidate_id candidate token [] = pure tt
settle_list candidate_id candidate token (r ∷ rs) = do
  slash_each candidate_id candidate token (r ∷ rs)
  clear_challengers candidate_id

unfoldable pub settle_challengers_as_losers : ℕ → ResolutionCandidate → Address → M ⊤
settle_challengers_as_losers candidate_id candidate collateral_token = do
  challengers ← get_challengers candidate_id
  settle_list candidate_id candidate collateral_token challengers

-- The body of the `for` loop of `void_market`, and the loop.
unfoldable pub refund_one : ℕ → ResolutionCandidate → Address → ChallengeRecord → M ⊤
refund_one candidate_id candidate token r = do
  this ← ask (λ env. env.this)
  when (ltb_ℤ (pos 0) r.bond) (do
    transfer token this r.challenger r.bond
    emit_bond_refunded candidate_id candidate.market_id r.challenger r.bond)

unfoldable pub refund_each : ℕ → ResolutionCandidate → Address → List ChallengeRecord → M ⊤
refund_each candidate_id candidate token [] = pure tt
refund_each candidate_id candidate token (r ∷ rs) = do
  refund_one candidate_id candidate token r
  refund_each candidate_id candidate token rs

-- The refund of the proposer's bond in `finalize` and `arbitrate_uphold_proposer`.
unfoldable pub refund_proposer : ResolutionCandidate → Address → M ⊤
refund_proposer candidate token = do
  this ← ask (λ env. env.this)
  when (ltb_ℤ (pos 0) candidate.bond_amount)
      (transfer token this candidate.proposer candidate.bond_amount)

abbrev pub resolve_v1 : ResolutionConfig → ResolutionCandidate → M ⊤
resolve_v1 config c = do
  this ← ask (λ env. env.this)
  market_id ← expect (market_id_to_string c.market_id)
  invoke_market config.market_contract
      (MarketCall.resolve_market this market_id c.outcome c.signature c.signature_expiry)

-- The last step of `finalize`: a candidate with a passphrase hash goes to `resolve_market_v2`.
abbrev pub resolve : ResolutionConfig → ResolutionCandidate → M ⊤
resolve config c = elim c.passphrase_hash [
  | none ↦ resolve_v1 config c
  | some hash ↦ do
    this ← ask (λ env. env.this)
    market_id ← expect (market_id_to_string c.market_id)
    invoke_market config.market_contract (
        MarketCall.resolve_market_v2 this market_id c.outcome c.signature_expiry c.epoch c.signature
          hash)
]
