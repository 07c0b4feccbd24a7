-- ===== src/Market/Positions.antt =====
-- Positions of a market: contracts/market/src/positions.rs. The storage accessors that it calls are
-- parameters, and what it relies on of them is the records `IsPositionStore` and `KeepsWrites`.
pub mod Collateral
pub mod Writes
pub mod Transfer
pub mod Merge
pub mod History
use vatix_contract.Prelude.{
  ℕ, ◌/◌, ℤ, pos, negsuc, ltb_ℤ, leb_ℤ, ◌+ℤ◌, ◌-ℤ◌, ◌*ℤ◌, ◌/ℤ◌, Bool, true, false, ◌||◌, not,
  Option, none, some, List, ◌∷◌, ⊤, if◌then◌else◌, ◌==◌, ◌≡◌, ◌≢◌, ◌⊎◌, fits_i128, checked,
  checked_add, checked_sub, i128_max, Call, pure, throw, gets, modify, ok_or, expect, fail_if,
  unwrap_or, ◌>>=◌, ◌>>◌,
}
use vatix_contract.Market.Types.{Address, Position}
use vatix_contract.Market.Validation.{Result, done, fail, validate_market_price, eqb_ℤ}

pub data PositionError : Type 0 where
  share_balance_below_zero invalid_market_price insufficient_protocol_collateral unauthorized
        duplicate_request market_mismatch invalid_position_state :
      PositionError

abbrev pub basis_points : ℤ
basis_points = pos 10000

-- `i128::saturating_mul`
abbrev pub saturating_mul : ℤ → ℤ → ℤ
saturating_mul a b =
    if fits_i128 (a *ℤ b)
    then a *ℤ b
    else if ltb_ℤ (a *ℤ b) (pos 0)
    then negsuc i128_max
    else pos i128_max

-- The quotient by 10000 is always there.
unfoldable pub scale_by_bps : ℤ → ℤ → ℤ
scale_by_bps amount price_bps = saturating_mul amount price_bps /ℤ 10000

abbrev pub option_map : (ℤ → ℤ) → Option ℤ → Option ℤ
option_map f none = none
option_map f (some a) = some (f a)

abbrev pub scale_both : Option ℤ → Option ℤ → Option ℤ
scale_both none price = none
scale_both (some net) none = none
scale_both (some net) (some price) = some (scale_by_bps net price)

-- `none` is the panic of a difference that is no i128.
unfoldable pub calculate_locked_collateral : ℤ → ℤ → ℤ → Option ℤ
calculate_locked_collateral yes_shares no_shares market_price =
    if eqb_ℤ yes_shares no_shares
    then some (pos 0)
    else if ltb_ℤ no_shares yes_shares
    then option_map (λ net. scale_by_bps net market_price) (checked_sub yes_shares no_shares)
    else scale_both (checked_sub no_shares yes_shares) (checked_sub basis_points market_price)

-- The accessors of the storage. An error of `get_position` counts as an absent position, as
-- `unwrap_or_else(|_| None)` has it; `none` is an error of `set_position`, which has stored nothing.
pub record PositionStore (S : Type 0) : Type 0 where
  pub get_position : S → ℕ → Address → Option Position
  pub set_position : S → ℕ → Address → Position → Option S
  pub is_operator : S → Address → Address → Bool
  pub is_request_consumed : S → Address → ℕ → Bool
  pub mark_request_consumed : S → Address → ℕ → S

-- The laws: a write that succeeds is read back, nothing else is changed by it, and a request that is
-- marked stays marked.
pub record IsPositionStore {S : Type 0} (store : PositionStore S) : Type 0 where
  pub set_same :
      (s s' : S) (m : ℕ) (u : Address) (p : Position)
      → store.set_position s m u p ≡ some s'
      → store.get_position s' m u ≡ some p
  pub set_other :
      (s s' : S) (m k : ℕ) (u v : Address) (p : Position)
      → store.set_position s m u p ≡ some s'
      → (k ≢ m) ⊎ (v ≢ u)
      → store.get_position s' k v ≡ store.get_position s k v
  pub set_consumed :
      (s s' : S) (m : ℕ) (u v : Address) (p : Position) (id : ℕ)
      → store.set_position s m u p ≡ some s'
      → store.is_request_consumed s' v id ≡ store.is_request_consumed s v id
  pub mark_consumed :
      (s : S) (u : Address) (id : ℕ)
      → store.is_request_consumed (store.mark_request_consumed s u id) u id ≡ true
  pub mark_kept :
      (s : S) (u v : Address) (id k : ℕ)
      → store.is_request_consumed s v k ≡ true
      → store.is_request_consumed (store.mark_request_consumed s u id) v k ≡ true
  pub mark_position :
      (s : S) (u : Address) (id m : ℕ) (v : Address)
      → store.get_position (store.mark_request_consumed s u id) m v ≡ store.get_position s m v

-- A storage whose writes of positions all succeed.
pub record KeepsWrites {S : Type 0} (store : PositionStore S) : Type 0 where
  pub laws : IsPositionStore store
  pub succeeds :
      (s : S) (m : ℕ) (u : Address) (p : Position)
      → (s' : S) × (store.set_position s m u p ≡ some s')

-- The storage after `set_position(..).unwrap_or_default()`, which passes over an error.
abbrev pub stored : {S : Type 0} → PositionStore S → S → ℕ → Address → Position → S
stored store s m u p = unwrap_or (store.set_position s m u p) s

-- The storage, and the positions that `emit_position_updated` has named, the newest first.
pub record Ledger (S : Type 0) : Type 0 where
  pub state : S
  pub updated : List (ℕ × Address)

abbrev pub M : Type 0 → Type 0 → Type 0
M S A = Call PositionError ⊤ (Ledger S) A

-- `map_err(|_| PositionError::InvalidMarketPrice)`
abbrev pub as_price_error : {S : Type 0} → Result ⊤ → M S ⊤
as_price_error (done u) = pure u
as_price_error (fail e) = throw invalid_market_price

abbrev pub validate_position_change : {S : Type 0} → Position → ℤ → ℤ → M S ⊤
validate_position_change current_position yes_delta no_delta = do
  new_yes ← expect (checked_add current_position.yes_shares yes_delta)
  new_no ← expect (checked_add current_position.no_shares no_delta)
  fail_if (ltb_ℤ new_yes (pos 0) || ltb_ℤ new_no (pos 0)) share_balance_below_zero

-- The position that a user has before the first write.
abbrev pub empty_position : ℕ → Address → Position
empty_position market_id user = record {
  user = user;
  yes_shares = pos 0;
  no_shares = pos 0;
  locked_collateral = pos 0;
  total_deposited = pos 0;
  market_id = market_id;
  is_settled = false;
}

module _ {S : Type 0} (store : PositionStore S) where
  abbrev pub get_position : ℕ → Address → M S (Option Position)
  get_position m u = gets (λ w. store.get_position w.state m u)

  abbrev pub set_position : ℕ → Address → Position → M S ⊤
  set_position m u p = modify (λ w. record w { state = stored store w.state m u p })

  abbrev pub emit_position_updated : ℕ → Address → M S ⊤
  emit_position_updated m u = modify (λ w. record w { updated = (m, u) ∷ w.updated })

  abbrev pub authorize_position_operator : Address → Address → M S ⊤
  authorize_position_operator owner caller = do
    operator ← gets (λ w. store.is_operator w.state owner caller)
    fail_if (not (caller == owner || operator)) unauthorized

  abbrev pub consume_request_id : Address → ℕ → M S ⊤
  consume_request_id owner request_id = do
    used ← gets (λ w. store.is_request_consumed w.state owner request_id)
    fail_if used duplicate_request
    modify (λ w. record w { state = store.mark_request_consumed w.state owner request_id })

  unfoldable pub transfer_position : ℕ → Address → Address → Address → ℤ → ℤ → ℤ → ℕ → M S ⊤
  transfer_position market_id from to caller yes_shares no_shares market_price request_id = do
    as_price_error (validate_market_price market_price)
    authorize_position_operator from caller
    consume_request_id from request_id
    fail_if (ltb_ℤ yes_shares (pos 0) || ltb_ℤ no_shares (pos 0)) share_balance_below_zero
    found ← get_position market_id from
    source ← ok_or found invalid_position_state
    fail_if source.is_settled invalid_position_state
    validate_position_change source (pos 0 -ℤ yes_shares) (pos 0 -ℤ no_shares)
    present ← get_position market_id to
    let dest = unwrap_or present (empty_position market_id to)
    fail_if dest.is_settled invalid_position_state
    source_yes ← expect (checked_sub source.yes_shares yes_shares)
    source_no ← expect (checked_sub source.no_shares no_shares)
    dest_yes ← expect (checked_add dest.yes_shares yes_shares)
    dest_no ← expect (checked_add dest.no_shares no_shares)
    source_locked ← expect (calculate_locked_collateral source_yes source_no market_price)
    dest_locked ← expect (calculate_locked_collateral dest_yes dest_no market_price)
    set_position market_id from (record source {
      yes_shares = source_yes;
      no_shares = source_no;
      locked_collateral = source_locked;
    })
    set_position market_id to (record dest {
      yes_shares = dest_yes;
      no_shares = dest_no;
      locked_collateral = dest_locked;
    })
    emit_position_updated market_id from
    emit_position_updated market_id to

  unfoldable pub merge_positions : ℕ → Address → Address → Address → Address → ℤ → ℕ → M S ⊤
  merge_positions market_id owner primary other caller market_price request_id = do
    as_price_error (validate_market_price market_price)
    authorize_position_operator owner caller
    consume_request_id owner request_id
    first ← get_position market_id primary
    primary_pos ← ok_or first invalid_position_state
    second ← get_position market_id other
    other_pos ← ok_or second invalid_position_state
    fail_if (primary_pos.is_settled || other_pos.is_settled) invalid_position_state
    sum_yes ← expect (checked_add primary_pos.yes_shares other_pos.yes_shares)
    sum_no ← expect (checked_add primary_pos.no_shares other_pos.no_shares)
    deposited ← expect (checked_add primary_pos.total_deposited other_pos.total_deposited)
    locked ← expect (calculate_locked_collateral sum_yes sum_no market_price)
    set_position market_id primary (record primary_pos {
      yes_shares = sum_yes;
      no_shares = sum_no;
      total_deposited = deposited;
      locked_collateral = locked;
    })
    set_position market_id other (record other_pos {
      yes_shares = pos 0;
      no_shares = pos 0;
      locked_collateral = pos 0;
      total_deposited = pos 0;
    })
    emit_position_updated market_id primary
    emit_position_updated market_id other
