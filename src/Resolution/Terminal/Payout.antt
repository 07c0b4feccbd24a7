-- ===== src/Resolution/Terminal/Payout.antt =====
-- The payments in the middle of `finalize`, `arbitrate_uphold_proposer` and `void_market`
-- (contracts/resolution/src/lib.rs).
use vatix_contract.Prelude.{ℕ, pos, none, some, List, ⊤, ltb_ℤ, last, when, ◌>>=◌, ◌>>◌}
use vatix_contract.Resolution.Types.{
  Address, ChallengeRecord, ResolutionCandidate, ResolutionConfig,
}
use vatix_contract.Resolution.World.{M}
use vatix_contract.Resolution.Storage.{get_challengers, clear_challengers}
use vatix_contract.Resolution.Guards.{get_collateral_token}
use vatix_contract.Resolution.Bonds.{
  split_bond, settle_challengers_as_losers, refund_each, refund_proposer,
}

-- The most recent challenger, or the proposer if there is none on record.
abbrev pub reward_recipient : List ChallengeRecord → Address → Address
reward_recipient challengers proposer = elim (last challengers) [
  | none ↦ proposer
  | some r ↦ r.challenger
]

-- The payments that `finalize` and `arbitrate_uphold_proposer` share: the proposer has its bond back,
-- and every challenger on record is slashed.
unfoldable pub pay_upheld : ResolutionConfig → ℕ → ResolutionCandidate → M ⊤
pay_upheld config candidate_id closed = do
  collateral_token ← get_collateral_token config closed.market_id
  refund_proposer closed collateral_token
  settle_challengers_as_losers candidate_id closed collateral_token

-- The payments of `void_market`: the proposer's bond is split, and every challenger is refunded.
unfoldable pub void_payments : ℕ → ResolutionCandidate → Address → M ⊤
void_payments candidate_id closed collateral_token = do
  challengers ← get_challengers candidate_id
  when (ltb_ℤ (pos 0) closed.bond_amount) (
      split_bond candidate_id closed.market_id collateral_token closed.proposer
        (reward_recipient challengers closed.proposer) closed.bond_amount)
  refund_each candidate_id closed collateral_token challengers
  clear_challengers candidate_id

unfoldable pub pay_voided : ResolutionConfig → ℕ → ResolutionCandidate → M ⊤
pay_voided config candidate_id closed = do
  collateral_token ← get_collateral_token config closed.market_id
  void_payments candidate_id closed collateral_token
