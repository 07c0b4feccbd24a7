-- ===== src/Treasury/Events.antt =====
-- The `emit_` functions of contracts/treasury/src/events.rs. The event structs are the constructors of
-- `Event` in Treasury/World.antt.
use vatix_contract.Prelude.{ℕ, ℤ, List, ◌∷◌, ⊤, length, ask, modify, ◌>>=◌}
use vatix_contract.Treasury.Types.{Address}
use vatix_contract.Treasury.World.{
  Event, treasury_initialized, fee_collected, fees_withdrawn, admin_transferred,
  admin_transfer_proposed, market_contract_proposed, market_contract_set, market_added,
  market_removed, stakeholders_proposed, stakeholders_updated, fees_distributed, treasury_paused,
  treasury_unpaused, emergency_mode_changed, Effect, publish, M,
}

module _ {S Mode : Type 0} where
  abbrev pub log_effect : Effect Mode → M S Mode ⊤
  log_effect e = modify (λ w. record w { log = e ∷ w.log })

  abbrev emit : (ℕ → Event Mode) → M S Mode ⊤
  emit f = do now ← ask (λ env. env.timestamp); log_effect (publish (f now))

  abbrev pub emit_treasury_initialized : Address → Address → M S Mode ⊤
  emit_treasury_initialized admin market = emit (treasury_initialized admin market)

  abbrev pub emit_fee_collected : ℕ → Address → ℤ → ℤ → ℤ → M S Mode ⊤
  emit_fee_collected market_id token fee_amount balance cumulative =
      emit (λ now. fee_collected market_id token fee_amount balance cumulative)

  abbrev pub emit_fees_withdrawn : Address → Address → ℤ → ℤ → M S Mode ⊤
  emit_fees_withdrawn token to amount remaining =
      emit (λ now. fees_withdrawn token to amount remaining)

  abbrev pub emit_admin_transferred : Address → Address → M S Mode ⊤
  emit_admin_transferred old new = emit (admin_transferred old new)

  abbrev pub emit_admin_transfer_proposed : Address → Address → ℕ → M S Mode ⊤
  emit_admin_transfer_proposed old new effective_at =
      emit (λ now. admin_transfer_proposed old new effective_at)

  abbrev pub emit_market_contract_proposed : Address → ℕ → M S Mode ⊤
  emit_market_contract_proposed a effective_at =
      emit (λ now. market_contract_proposed a effective_at)

  abbrev pub emit_market_contract_set : Address → M S Mode ⊤
  emit_market_contract_set a = emit (market_contract_set a)

  abbrev pub emit_market_added : Address → M S Mode ⊤
  emit_market_added a = emit (λ now. market_added a)

  abbrev pub emit_market_removed : Address → M S Mode ⊤
  emit_market_removed a = emit (λ now. market_removed a)

  abbrev pub emit_stakeholders_proposed : List Address → List ℕ → ℕ → M S Mode ⊤
  emit_stakeholders_proposed addrs shares effective_at =
      emit (λ now. stakeholders_proposed addrs shares effective_at)

  abbrev pub emit_stakeholders_updated : List Address → List ℕ → M S Mode ⊤
  emit_stakeholders_updated addrs shares = emit (stakeholders_updated (length addrs) addrs shares)

  abbrev pub emit_fees_distributed : Address → ℤ → ℤ → ℕ → M S Mode ⊤
  emit_fees_distributed token distributed remaining count =
      emit (fees_distributed token distributed remaining count)

  abbrev pub emit_treasury_paused : Address → M S Mode ⊤
  emit_treasury_paused admin = emit (treasury_paused admin)

  abbrev pub emit_treasury_unpaused : Address → M S Mode ⊤
  emit_treasury_unpaused admin = emit (treasury_unpaused admin)

  abbrev pub emit_emergency_mode_changed : Mode → Address → M S Mode ⊤
  emit_emergency_mode_changed mode admin = emit (emergency_mode_changed mode admin)
