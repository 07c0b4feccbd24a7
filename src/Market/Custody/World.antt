-- ===== src/Market/Custody/World.antt =====
-- What the custody modules of contracts/market/src read and write: the storage behind its accessors,
-- the answers of other contracts, and the log of their calls and of the events of events.rs.
use vatix_contract.Prelude.{
  ℕ, ℤ, Bool, false, Option, List, [], ◌∷◌, ◌||◌, not, ⊤, ◌==◌, Outcome, Call, ask, gets, modify,
  pure, throw, propagate, fail_if, trap_unless, ◌>>=◌, ◌>>◌,
}
use vatix_contract.Market.Types.{
  Address, EmergencyMode, normal, trading_halted, settle_only, global_freeze,
}
use vatix_contract.Market.Validation.{Result, done, fail}
use vatix_contract.Market.Custody.Store.{Failure, declared, emergency_mode_active, MarketStore}

pub data TokenKind : Type 0 where
  yes_token no_token : TokenKind

pub data Event : Type 0 where
  collateral_deposited : (user : Address) (market_id : ℕ) (amount new_total : ℤ) → Event
  collateral_withdrawn : (user : Address) (market_id : ℕ) (amount new_total : ℤ) → Event
  large_withdraw : (user : Address) (market_id : ℕ) (amount : ℤ) (timestamp : ℕ) → Event
  withdraw_edge_case : (user : Address) (market_id : ℕ) (amount : ℤ) → Event
  fee_calculated : (market_id : ℕ) (user : Address) (fee_amount available_after_fee : ℤ) → Event
  fee_retained_no_treasury : (market_id : ℕ) (user : Address) (fee_amount : ℤ) → Event
  position_updated :
      (market_id : ℕ) (user : Address) (yes_shares no_shares locked_collateral : ℤ) → Event
  position_settled : (market_id : ℕ) (user : Address) (payout : ℤ) (settled_at : ℕ) → Event
  positions_batch_settled :
      (market_id : ℕ) (users : List Address) (payouts : List ℤ) (settled_at : ℕ) → Event
  position_token_mismatch_detected :
      (market_id : ℕ) (user : Address) (yes_shares no_shares yes_balance no_balance : ℤ) → Event

pub data Effect : Type 0 where
  transfer : (token from to : Address) (amount : ℤ) → Effect
  collect_fee : (treasury caller token : Address) (market_id : ℕ) (fee_amount : ℤ) → Effect
  burn :
      (contract : Address) (market_id : ℕ) (user : Address) (kind : TokenKind) (amount : ℤ) → Effect
  publish : Event → Effect

-- The newest effect first.
abbrev pub Log : Type 0
Log = List Effect

pub record World (S : Type 0) : Type 0 where
  pub state : S
  pub log : Log

-- The host in one call; other contracts answer by what was done so far.
pub record Env : Type 0 where
  pub this : Address
  pub timestamp : ℕ
  pub authorized : Address → Bool
  pub returns : Log → Effect → Bool
  pub balance : Log → Address → ℕ → Address → TokenKind → Option ℤ

abbrev pub M : Type 0 → Type 0 → Type 0
M S A = Call Failure Env (World S) A

abbrev mode_number : EmergencyMode → ℕ
mode_number normal = 0
mode_number trading_halted = 1
mode_number settle_only = 2
mode_number global_freeze = 3

abbrev pub allows : List EmergencyMode → EmergencyMode → Bool
allows [] current = false
allows (m ∷ ms) current = mode_number m == mode_number current || allows ms current

module _ {S : Type 0} where
  abbrev pub now : M S ℕ
  now = ask (λ env. env.timestamp)

  abbrev pub require_auth : Address → M S ⊤
  require_auth a = do signed ← ask (λ env. env.authorized a); trap_unless signed

  abbrev pub validated : Result ⊤ → M S ⊤
  validated (done u) = pure tt
  validated (fail e) = throw (declared e)

  abbrev pub validated_ℤ : Result ℤ → M S ℤ
  validated_ℤ (done n) = pure n
  validated_ℤ (fail e) = throw (declared e)

  abbrev pub log_effect : Effect → M S ⊤
  log_effect e = modify (λ w. record w { log = e ∷ w.log })

  abbrev pub emit : Event → M S ⊤
  emit e = log_effect (publish e)

  -- A call of another contract, which traps unless it returns.
  abbrev pub call : Effect → M S ⊤
  call e = do
    returns ← ask (λ env. env.returns)
    log ← gets (λ w. w.log)
    trap_unless (returns log e)
    log_effect e

  abbrev pub peek : {A : Type 0} → (S → A) → M S A
  peek f = gets (λ w. f w.state)

  abbrev pub answer : {A : Type 0} → (S → Outcome Failure A) → M S A
  answer f = do r ← peek f; propagate r

  abbrev pub put : S → M S ⊤
  put s = modify (λ w. record w { state = s })

  abbrev pub poke : (S → S) → M S ⊤
  poke f = modify (λ w. record w { state = f w.state })

  abbrev pub require_emergency_mode_allows : MarketStore S → List EmergencyMode → M S ⊤
  require_emergency_mode_allows store allowed_modes = do
    current ← peek store.get_emergency_mode
    fail_if (not (allows allowed_modes current)) emergency_mode_active
