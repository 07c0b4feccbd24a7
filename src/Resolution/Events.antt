-- ===== src/Resolution/Events.antt =====
-- The `emit_` functions of contracts/resolution/src/events.rs. The event structs are the constructors
-- of `Event` in Resolution/World.antt; `publish` puts one on the log.
use vatix_contract.Prelude.{ℕ, ℤ, Bool, ◌∷◌, ⊤, unwrap_or, ask, modify, ◌>>=◌}
use vatix_contract.Resolution.Types.{Address, Bytes, EmergencyMode, ResolutionCandidate}
use vatix_contract.Resolution.World.{
  Event, resolution_registered, candidate_proposed, candidate_challenged, bond_slashed,
  bond_refunded, candidate_arbitrated, market_voided, factory_proposed, factory_set,
  market_contract_proposed, market_contract_set, treasury_proposed, treasury_set,
  candidate_finalized, candidate_appealed, resolution_paused, resolution_unpaused,
  emergency_mode_changed, collateral_slashed, Effect, M,
}

abbrev pub log_effect : Effect → M ⊤
log_effect e = modify (λ w. record w { log = e ∷ w.log })

abbrev emit : (ℕ → Event) → M ⊤
emit f = do now ← ask (λ env. env.timestamp); log_effect (Effect.publish (f now))

abbrev pub emit_resolution_registered : Address → Address → M ⊤
emit_resolution_registered factory market_contract =
    emit (λ now. resolution_registered factory market_contract now)

abbrev pub emit_candidate_proposed : ResolutionCandidate → M ⊤
emit_candidate_proposed c = emit λ now.
    candidate_proposed c.id c.market_id c.outcome c.proposer c.evidence_uri c.challenge_deadline
      c.signature_expiry c.bond_amount

abbrev pub emit_candidate_challenged : ℕ → ℕ → Address → Bytes → ℤ → M ⊤
emit_candidate_challenged candidate_id market_id challenger challenge_uri bond_amount =
    emit (candidate_challenged candidate_id market_id challenger challenge_uri bond_amount)

abbrev pub emit_bond_slashed : ℕ → ℕ → Address → Address → ℤ → ℤ → ℤ → ℤ → M ⊤
emit_bond_slashed candidate_id market_id loser winner total reward burned treasury_cut =
    emit (bond_slashed candidate_id market_id loser winner total reward burned treasury_cut)

abbrev pub emit_bond_refunded : ℕ → ℕ → Address → ℤ → M ⊤
emit_bond_refunded candidate_id market_id recipient amount =
    emit (bond_refunded candidate_id market_id recipient amount)

abbrev pub emit_candidate_arbitrated : ℕ → ℕ → Bool → M ⊤
emit_candidate_arbitrated candidate_id market_id outcome =
    emit (candidate_arbitrated candidate_id market_id outcome)

abbrev pub emit_market_voided : ℕ → ℕ → M ⊤
emit_market_voided candidate_id market_id = emit (market_voided candidate_id market_id)

abbrev pub emit_factory_proposed : Address → ℕ → M ⊤
emit_factory_proposed factory effective_at = emit (λ now. factory_proposed factory effective_at)

abbrev pub emit_factory_set : Address → M ⊤
emit_factory_set factory = emit (factory_set factory)

abbrev pub emit_market_contract_proposed : Address → ℕ → M ⊤
emit_market_contract_proposed market_contract effective_at =
    emit (λ now. market_contract_proposed market_contract effective_at)

abbrev pub emit_market_contract_set : Address → M ⊤
emit_market_contract_set market_contract = emit (market_contract_set market_contract)

abbrev pub emit_treasury_proposed : Address → ℕ → M ⊤
emit_treasury_proposed treasury effective_at = emit (λ now. treasury_proposed treasury effective_at)

abbrev pub emit_treasury_set : Address → M ⊤
emit_treasury_set treasury = emit (treasury_set treasury)

abbrev pub emit_candidate_finalized : ResolutionCandidate → M ⊤
emit_candidate_finalized c =
    emit (λ now. candidate_finalized c.id c.market_id c.outcome (unwrap_or c.finalized_at now))

abbrev pub emit_candidate_appealed : ResolutionCandidate → M ⊤
emit_candidate_appealed c = emit (
    candidate_appealed c.id c.market_id c.outcome c.proposer c.appeal_round c.evidence_uri
      c.challenge_deadline)

abbrev pub emit_resolution_paused : Address → M ⊤
emit_resolution_paused admin = emit (resolution_paused admin)

abbrev pub emit_resolution_unpaused : Address → M ⊤
emit_resolution_unpaused admin = emit (resolution_unpaused admin)

abbrev pub emit_emergency_mode_changed : EmergencyMode → Address → M ⊤
emit_emergency_mode_changed new_mode admin = emit (emergency_mode_changed new_mode admin)

abbrev pub emit_collateral_slashed : Address → Address → ℤ → M ⊤
emit_collateral_slashed proposer recipient amount =
    emit (collateral_slashed proposer recipient amount)
