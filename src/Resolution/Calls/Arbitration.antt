-- ===== src/Resolution/Calls/Arbitration.antt =====
-- When the administrator's end of a dispute goes through: `arbitrate_uphold_proposer` and `void_market`
-- return (contracts/resolution/src/lib.rs).
use vatix_contract.Prelude.{
  ℕ, ◌*◌, ◌≤◌, ◌<◌, ◌^◌, pos, pos_part, true, false, some, List, [], ◌∷◌, ok, ◌>>◌, ◌≡◌, refl,
  i128_max, unwrap_or, ltb_ℤ, arith,
}
use vatix_contract.Resolution.Types.{
  Address, CandidateStatus, voided, ChallengeRecord, ResolutionCandidate, ResolutionConfig,
}
use vatix_contract.Resolution.World.{
  Env, World, invoke, publish, bond_refunded, market_voided, MarketCall,
}
use vatix_contract.Resolution.Guards.{transfer}
use vatix_contract.Resolution.Storage.{clear_challengers}
use vatix_contract.Resolution.Events.{emit_bond_refunded}
use vatix_contract.Resolution.Bonds.{split_bond, refund_one, refund_each}
use vatix_contract.Resolution.Terminal.{close_arbitrated, void_market}
use vatix_contract.Resolution.Terminal.Payout.{reward_recipient, void_payments, pay_voided}
use vatix_contract.Resolution.Terminal.Inversion.{ended, with_candidate}
use vatix_contract.Resolution.Lifecycle.{IsArbitrable}
use vatix_contract.Resolution.Calls.Completion.{
  IsAnswering, Returns, and_then, transfer-Returns, when-Returns, split_bond-Returns,
}

module _ (env : Env) (host : IsAnswering env) where
  refund_one-Returns :
      (k : ℕ) (c : ResolutionCandidate) (token : Address) (r : ChallengeRecord) (w : World)
      → Returns (refund_one k c token r) env w
  unfolding refund_one
  refund_one-Returns k c token r w =
      let pay = transfer token env.this r.challenger r.bond in
      let told = emit_bond_refunded k c.market_id r.challenger r.bond in
      let refunded = bond_refunded k c.market_id r.challenger r.bond env.timestamp in
      when-Returns env host (ltb_ℤ (pos 0) r.bond) (pay >> told) w (
        and_then env host pay (λ u. told) w
          (transfer-Returns env host token env.this r.challenger r.bond w)
          (λ u w' e. (tt, record w' { log = publish refunded ∷ w'.log }, refl)))

  refund_each-Returns :
      (k : ℕ) (c : ResolutionCandidate) (token : Address) (rs : List ChallengeRecord) (w : World)
      → Returns (refund_each k c token rs) env w
  unfolding refund_each
  refund_each-Returns k c token [] w = (tt, w, refl)
  refund_each-Returns k c token (r ∷ rs) w =
      and_then env host (refund_one k c token r) (λ u. refund_each k c token rs) w
        (refund_one-Returns k c token r w) (λ u w' e. refund_each-Returns k c token rs w')

  pay_voided-Returns :
      (config : ResolutionConfig) (k : ℕ) (c : ResolutionCandidate) (w : World)
      → pos_part c.bond_amount * 5000 ≤ i128_max
      → Returns (pay_voided config k c) env w
  unfolding pay_voided void_payments
  pay_voided-Returns config k c w fits =
      let (token, asked) = host.tokens w.log config.market_contract c.market_id in
      let rs = unwrap_or (w.storage.challengers k) [] in
      let winner = reward_recipient rs c.proposer in
      let split = split_bond k c.market_id token c.proposer winner c.bond_amount in
      let (u, w1, first) =
        when-Returns env host (ltb_ℤ (pos 0) c.bond_amount) split w (
          split_bond-Returns env host k c.market_id token c.proposer winner c.bond_amount w fits) in
      let (v, w2, second) = refund_each-Returns k c token rs w1 in
      let (x, w3, third) : Returns (clear_challengers k) env w2 = (tt, _, refl) in
      (tt, w3, ground (arith, asked, first, second, third))

  -- The guards of the administrator's entry points for the candidate `c`.
  close_arbitrated-returns :
      (s : CandidateStatus) (f k : ℕ) (config : ResolutionConfig) (c : ResolutionCandidate)
      (w : World)
      → env.authorized f ≡ true
      → unwrap_or w.storage.paused false ≡ false
      → w.storage.storage_version ≡ some 1
      → w.storage.config ≡ some config
      → config.admin ≡ f
      → w.storage.candidate k ≡ some c
      → IsArbitrable env.timestamp c
      → env.timestamp < 2 ^ 64
      → close_arbitrated s f k env w
        ≡ ok ((config, ended env s c), with_candidate (ended env s c) w)
  unfolding close_arbitrated
  close_arbitrated-returns s f k config c w signed running current configured admin stored may
        time =
      ground arith

  -- `void_market` returns the voided candidate, with nothing but status and time changed, for one whose
  -- challenge has stood for the timelock: the administrator signs, the contract is current and not
  -- paused, the time is a u64, the proposer's bond is not so large that its split overflows, and the
  -- other contracts answer.
  pub void_market-Returns :
      (f k : ℕ) (config : ResolutionConfig) (c : ResolutionCandidate) (w : World)
      → env.authorized f ≡ true
      → unwrap_or w.storage.paused false ≡ false
      → w.storage.storage_version ≡ some 1
      → w.storage.config ≡ some config
      → config.admin ≡ f
      → w.storage.candidate k ≡ some c
      → IsArbitrable env.timestamp c
      → env.timestamp < 2 ^ 64
      → pos_part c.bond_amount * 5000 ≤ i128_max
      → (w' : World) × (void_market f k env w ≡ ok (ended env voided c, w'))
  unfolding void_market
  void_market-Returns f k config c w signed running current configured admin stored may time fits =
      let closed = ended env voided c in
      let opened =
        close_arbitrated-returns voided f k config c w signed running current configured admin
          stored may time in
      let (u, w2, paid) = pay_voided-Returns config k closed (with_candidate closed w) fits in
      let told = publish (market_voided k c.market_id env.timestamp) ∷ w2.log in
      let call = MarketCall.void_market env.this c.market_id in
      let answered = host.calls told config.market_contract call in
      (
        record w2 { log = invoke config.market_contract call ∷ told },
        ground (arith, opened, paid, answered),
      )
