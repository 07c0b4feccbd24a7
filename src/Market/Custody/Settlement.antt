-- ===== src/Market/Custody/Settlement.antt =====
-- The settlement of positions: contracts/market/src/settlement.rs.
pub mod Steps
pub mod Slices
pub mod Visits
pub mod Pages
pub mod Writes
pub mod Rounds
pub mod Effects
use vatix_contract.Prelude.{
  ℕ, zero, suc, ◌+◌, ◌-◌, ◌^◌, ℤ, pos, negsuc, ◌+ℤ◌, leb_ℤ, ltb_ℤ, Bool, true, false, ◌&&◌, ◌||◌,
  not, Option, none, some, List, [], ◌∷◌, ◌++◌, ⊤, ltb, leb, length, ◌==◌, fits_i128, i128_max,
  if◌then◌else◌, unwrap_or, Outcome, ok, err, trap, gets, ask, pure, throw, panic, propagate, ok_or,
  expect, fail_if, when, ◌>>=◌, ◌>>◌,
}
use vatix_contract.Market.Types.{
  Address, market_not_resolved, no_position_found, position_already_settled, invalid_quantity,
  batch_too_large, Market, MarketStatus, active, resolved, canceled, Position, normal,
  trading_halted, settle_only,
}
use vatix_contract.Market.Validation.{eqb_ℤ}
use vatix_contract.Market.Positions.{empty_position}
use vatix_contract.Market.Custody.Store.{Failure, MarketStore, declared, position_token_mismatch}
use vatix_contract.Market.Custody.World.{
  M, now, require_auth, emit, call, peek, answer, put, require_emergency_mode_allows, TokenKind,
  yes_token, no_token, position_updated, position_settled, positions_batch_settled,
  position_token_mismatch_detected, transfer, burn,
}
use vatix_contract.Market.Custody.Parity.{assert_position_token_parity}
use vatix_contract.Market.Custody.Deposit.{load_market, load_position, save_position}

abbrev pub is_resolved : MarketStatus → Bool
is_resolved resolved = true
is_resolved active = false
is_resolved canceled = false

abbrev pub calculate_payout : Position → Bool → ℤ
calculate_payout position outcome = if outcome then position.yes_shares else position.no_shares

abbrev pub validate_settlement_eligibility : Position → Market → Outcome Failure ⊤
validate_settlement_eligibility position market =
    if not (is_resolved market.status)
    then err (declared market_not_resolved)
    else if position.is_settled
    then err (declared position_already_settled)
    else ok tt

-- The refund of the deposits where no outcome won.
abbrev pub payout_of : Position → Option Bool → ℤ
payout_of position none = position.total_deposited
payout_of position (some outcome) = calculate_payout position outcome

abbrev pub validate_payout : ℤ → Outcome Failure ⊤
validate_payout payout = if ltb_ℤ payout (pos 0) then err (declared invalid_quantity) else ok tt

-- `i128::saturating_add`
abbrev pub saturating_add : ℤ → ℤ → ℤ
saturating_add a b =
    if fits_i128 (a +ℤ b)
    then a +ℤ b
    else if ltb_ℤ (a +ℤ b) (pos 0)
    then negsuc i128_max
    else pos i128_max

abbrev pub drop {ℓ} : {A : Type ℓ} → ℕ → List A → List A
drop zero xs = xs
drop (suc n) [] = []
drop (suc n) (x ∷ xs) = drop n xs

abbrev pub take {ℓ} : {A : Type ℓ} → ℕ → List A → List A
take zero xs = []
take (suc n) [] = []
take (suc n) (x ∷ xs) = x ∷ take n xs

-- `start_index.saturating_add(limit).min(total)`
abbrev pub page_end : ℕ → ℕ → ℕ → ℕ
page_end start_index limit total =
    let sum = if ltb (start_index + limit) (2 ^ 32) then start_index + limit else 2 ^ 32 - 1 in
    if ltb sum total then sum else total

module _ {S : Type 0} (store : MarketStore S) where
  abbrev pub payout_after : Position → Market → Outcome Failure ⊤ → Outcome Failure ℤ
  payout_after position market (err e) = err e
  payout_after position market trap = trap
  payout_after position market (ok u) =
      let payout = payout_of position market.result in
      elim (validate_payout payout) [ ok v ↦ ok payout | err e ↦ err e | trap ↦ trap ]

  abbrev pub settle_eligible : Position → Market → Outcome Failure ⊤ → M S (Outcome Failure ℤ)
  settle_eligible position market (err e) = pure (err e)
  settle_eligible position market trap = panic
  settle_eligible position market (ok u) = do
    checked ← assert_position_token_parity store position.market_id position.user
    pure (payout_after position market checked)

  -- The payout; the caller marks its position as settled.
  unfoldable pub compute_settlement : Position → Market → M S (Outcome Failure ℤ)
  compute_settlement position market =
      settle_eligible position market (validate_settlement_eligibility position market)

  abbrev pub burn_sides : ℕ → Address → Position → Option Address → M S ⊤
  burn_sides market_id user position none = pure tt
  burn_sides market_id user position (some contract) = do
    when (ltb_ℤ (pos 0) position.yes_shares)
        (call (burn contract market_id user yes_token position.yes_shares))
    when (ltb_ℤ (pos 0) position.no_shares)
        (call (burn contract market_id user no_token position.no_shares))

  unfoldable pub burn_settled_outcome_tokens : ℕ → Address → Position → M S ⊤
  burn_settled_outcome_tokens market_id user position = do
    contract ← peek store.get_outcome_token_contract
    burn_sides market_id user position contract

  abbrev pub pay_payout : Market → Address → ℤ → M S ⊤
  pay_payout market user payout = when (ltb_ℤ (pos 0) payout) (do
    contract_address ← ask (λ env. env.this)
    call (transfer market.collateral_token contract_address user payout))

  abbrev pub execute_settlement : Position → Market → M S ℤ
  execute_settlement position market = do
    result ← compute_settlement position market
    payout ← propagate result
    emit (
        position_updated position.market_id position.user position.yes_shares position.no_shares
          (pos 0))
    settled_at ← now
    emit (position_settled position.market_id position.user payout settled_at)
    pure payout

  -- The market and the position, behind the guards.
  unfoldable pub admit_settlement : Address → ℕ → M S (Market × Position)
  admit_settlement user market_id = do
    require_auth user
    require_emergency_mode_allows store (normal ∷ trading_halted ∷ settle_only ∷ [])
    market ← load_market store market_id
    stored ← answer (λ s. store.get_position s market_id user)
    position ← ok_or stored (declared no_position_found)
    pure (market, position)

  unfoldable pub settle_position : Address → ℕ → M S ℤ
  settle_position user market_id = do
    (market, position) ← admit_settlement user market_id
    payout ← execute_settlement position market
    let settled = record position { is_settled = true }
    save_position store market_id user settled
    burn_settled_outcome_tokens market_id user settled
    pay_payout market user payout
    pure payout

  -- The body of the loops: what a user was paid, or nothing if the user is passed over.
  abbrev pub record_settlement : ℕ → Market → Address → ℤ → Outcome Failure S → M S (Option ℤ)
  record_settlement market_id market user payout (err e) = pure none
  record_settlement market_id market user payout trap = panic
  record_settlement market_id market user payout (ok s) = do
    put s
    pay_payout market user payout
    pure (some payout)

  abbrev pub settle_computed : ℕ → Market → Address → Position → Outcome Failure ℤ → M S (Option ℤ)
  settle_computed market_id market user position (err e) = pure none
  settle_computed market_id market user position trap = panic
  settle_computed market_id market user position (ok payout) = do
    let settled = record position { is_settled = true }
    burn_settled_outcome_tokens market_id user settled
    written ← peek (λ s. store.set_position s market_id user settled)
    record_settlement market_id market user payout written

  abbrev pub settle_stored :
      ℕ → Market → Address → Outcome Failure (Option Position) → M S (Option ℤ)
  settle_stored market_id market user (err e) = pure none
  settle_stored market_id market user trap = panic
  settle_stored market_id market user (ok none) = pure none
  settle_stored market_id market user (ok (some position)) = do
    result ← compute_settlement position market
    settle_computed market_id market user position result

  unfoldable pub settle_user : ℕ → Market → Address → M S (Option ℤ)
  settle_user market_id market user = do
    stored ← peek (λ s. store.get_position s market_id user)
    settle_stored market_id market user stored

  -- The users settled so far, their payouts and the sum of these.
  abbrev pub with_payout :
      Address → Option ℤ → List Address × List ℤ × ℤ → List Address × List ℤ × ℤ
  with_payout user none (users, payouts, total) = (users, payouts, total)
  with_payout user (some payout) (users, payouts, total) =
      (users ++ user ∷ [], payouts ++ payout ∷ [], saturating_add total payout)

  unfoldable pub settle_each :
      ℕ → Market → List Address → List Address × List ℤ × ℤ → M S (List Address × List ℤ × ℤ)
  settle_each market_id market [] so_far = pure so_far
  settle_each market_id market (user ∷ users) so_far = do
    paid ← settle_user market_id market user
    settle_each market_id market users (with_payout user paid so_far)

  abbrev pub settle_all : ℕ → Market → List Address → M S ℤ
  settle_all market_id market users = do
    (settled_users, settled_payouts, total_payout) ←
        settle_each market_id market users ([], [], pos 0)
    settled_at ← now
    when (ltb 0 (length settled_users))
        (emit (positions_batch_settled market_id settled_users settled_payouts settled_at))
    pure total_payout

  abbrev pub load_resolved_market : ℕ → M S Market
  load_resolved_market market_id = do
    market ← load_market store market_id
    fail_if (not (is_resolved market.status)) (declared market_not_resolved)
    pure market

  abbrev pub require_settling : M S ⊤
  require_settling =
      require_emergency_mode_allows store (normal ∷ trading_halted ∷ settle_only ∷ [])

  -- `max_batch_settle_size` is a constant of the crate that lib.rs does not define.
  unfoldable pub batch_settle_positions : ℕ → ℕ → List Address → M S ℤ
  batch_settle_positions max_batch_settle_size market_id users = do
    require_settling
    fail_if (length users == 0) (declared batch_too_large)
    fail_if (ltb max_batch_settle_size (length users)) (declared batch_too_large)
    market ← load_resolved_market market_id
    settle_all market_id market users

  unfoldable pub settle_positions_page : ℕ → ℕ → ℕ → M S (ℤ × ℕ × Bool)
  settle_positions_page market_id start_index limit = do
    require_settling
    market ← load_resolved_market market_id
    participants ← peek (λ s. store.get_market_participants s market_id)
    let total = length participants
    let end_index = page_end start_index limit total
    if leb total start_index then pure (pos 0, total, true) else do
      total_payout ←
          settle_all market_id market
            (take (end_index - start_index) (drop start_index participants))
      pure (total_payout, end_index, leb total end_index)

-- What a settlement would pay now; nothing before the market is resolved.
abbrev pub calculate_potential_payout : Position → Market → Option ℤ
calculate_potential_payout position market =
    if is_resolved market.status then some (payout_of position market.result) else none

-- The winning shares, the losing shares and the whole payout.
abbrev pub calculate_market_settlement_stats : ℤ → ℤ → Bool → ℤ × ℤ × ℤ
calculate_market_settlement_stats total_yes_shares total_no_shares outcome =
    if outcome
    then (total_yes_shares, total_no_shares, total_yes_shares)
    else (total_no_shares, total_yes_shares, total_no_shares)
