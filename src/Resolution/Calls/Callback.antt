-- ===== src/Resolution/Calls/Callback.antt =====
-- The call-back into the market contract at the end of a dispute (contracts/resolution/src/lib.rs).
use vatix_contract.Prelude.{
  ℕ, none, some, Option-cases, inl, inr, ◌∷◌, ◌≡◌, ok, ◌>>◌, pure, >>=-eq-ok, arith,
}
use vatix_contract.Resolution.Types.{
  Address, Bytes, CandidateStatus, finalized, ResolutionCandidate, ResolutionConfig,
}
use vatix_contract.Resolution.World.{
  MarketCall, resolve_market, resolve_market_v2, candidate_arbitrated, invoke, publish, Log, Env,
  World,
}
use vatix_contract.Resolution.Guards.{market_id_to_string}
use vatix_contract.Resolution.Bonds.{resolve}
use vatix_contract.Resolution.Events.{emit_candidate_finalized}
use vatix_contract.Resolution.Terminal.{
  close_finalized, finalize, close_arbitrated, arbitrate_uphold_proposer,
}
use vatix_contract.Resolution.Terminal.Payout.{pay_upheld}
use vatix_contract.Resolution.Terminal.Inversion.{then_finalized, then_arbitrated}

-- The call that the signature scheme of the candidate asks for.
abbrev pub scheme_call : Address → Bytes → ResolutionCandidate → MarketCall
scheme_call this id c = elim c.passphrase_hash [
  | none ↦ resolve_market this id c.outcome c.signature c.signature_expiry
  | some hash ↦ resolve_market_v2 this id c.outcome c.signature_expiry c.epoch c.signature hash
]

resolve-invoke :
    (config : ResolutionConfig) (c : ResolutionCandidate) (env : Env) (w w' : World)
    → resolve config c env w ≡ ok (tt, w')
    → (id : Bytes) × (market_id_to_string c.market_id ≡ some id)
      × (w'.log ≡ invoke config.market_contract (scheme_call env.this id c) ∷ w.log)
resolve-invoke config c env w w' h = elim (Option-cases (market_id_to_string c.market_id)) [
  | inl absent ↦ elim (Option-cases c.passphrase_hash) [
    | inl v1 ↦ absurd (ground arith)
    | inr (hash, v2) ↦ absurd (ground arith)
  ]
  | inr (id, e) ↦ elim (Option-cases c.passphrase_hash) [
    | inl v1 ↦ (id, e, ground arith)
    | inr (hash, v2) ↦ (id, e, ground arith)
  ]
]

close_finalized-config :
    (f k : ℕ) (env : Env) (w w' : World) (p : ResolutionConfig × ResolutionCandidate)
    → close_finalized f k env w ≡ ok (p, w')
    → w.storage.config ≡ some p.0
unfolding close_finalized
close_finalized-config f k env w w' p h = ground arith

-- What a return of `finalize` or `arbitrate_uphold_proposer` did last: one call of the market
-- contract of the configuration `config`, under the decimal identifier `id` of the market.
pub record CallsBack (env : Env) (config : ResolutionConfig) (c : ResolutionCandidate)
    (call : Bytes → MarketCall) (w' : World) : Type 0 where
  pub id : Bytes
  pub named : market_id_to_string c.market_id ≡ some id
  pub before : Log
  pub last_effect : w'.log ≡ invoke config.market_contract (call id) ∷ before

finalized-resolve :
    (p : ResolutionConfig × ResolutionCandidate) (env : Env) (w w' : World)
    (c : ResolutionCandidate)
    → then_finalized p env w ≡ ok (c, w')
    → (c ≡ p.1) × CallsBack env p.0 p.1 (λ id. scheme_call env.this id p.1) w'
finalized-resolve p env w w' c h =
    let (u, w1, first, rest) =
      >>=-eq-ok (emit_candidate_finalized p.1) (λ u. resolve p.0 p.1 >> pure p.1) env w c w' h in
    let (v, w2, called, then) = >>=-eq-ok (resolve p.0 p.1) (λ u. pure p.1) env w1 c w' rest in
    let (id, named, logged) = resolve-invoke p.0 p.1 env w1 w2 called in
    (ground arith, record { id = id; named = named; before = w1.log; last_effect = ground arith })

-- `finalize` ends with the call of the market contract of its configuration that belongs to the
-- signature scheme of the candidate: `resolve_market_v2` with the stored hash, expiry and epoch if it
-- has a passphrase hash, `resolve_market` if not.
pub finalize-CallsBack :
    (f k : ℕ) (env : Env) (w w' : World) (c : ResolutionCandidate)
    → finalize f k env w ≡ ok (c, w')
    → (config : ResolutionConfig) × (w.storage.config ≡ some config)
      × CallsBack env config c (λ id. scheme_call env.this id c) w'
unfolding finalize
finalize-CallsBack f k env w w' c h =
    let (p, w1, opened, rest) =
      >>=-eq-ok (close_finalized f k) (λ p. pay_upheld p.0 k p.1 >> then_finalized p) env w c w'
        h in
    let (u, w2, paying, then) =
      >>=-eq-ok (pay_upheld p.0 k p.1) (λ u. then_finalized p) env w1 c w' rest in
    let (same, calls) = finalized-resolve p env w2 w' c then in
    (p.0, close_finalized-config f k env w w1 p opened, rw same calls)

close_arbitrated-config :
    (s : CandidateStatus) (f k : ℕ) (env : Env) (w w' : World)
    (p : ResolutionConfig × ResolutionCandidate)
    → close_arbitrated s f k env w ≡ ok (p, w')
    → w.storage.config ≡ some p.0
unfolding close_arbitrated
close_arbitrated-config s f k env w w' p h = ground arith

arbitrated-resolve :
    (k : ℕ) (p : ResolutionConfig × ResolutionCandidate) (env : Env) (w w' : World)
    (c : ResolutionCandidate)
    → then_arbitrated k p env w ≡ ok (c, w')
    → (c ≡ p.1)
      × CallsBack env p.0 p.1
          (λ id. resolve_market env.this id p.1.outcome p.1.signature p.1.signature_expiry)
          w'
arbitrated-resolve k p env w w' c h = elim (Option-cases (market_id_to_string p.1.market_id)) [
  | inl absent ↦ absurd (ground arith)
  | inr (id, e) ↦ (
    ground arith,
    record {
      id = id;
      named = e;
      before = publish (candidate_arbitrated k p.1.market_id p.1.outcome env.timestamp) ∷ w.log;
      last_effect = ground arith;
    },
  )
]

-- `arbitrate_uphold_proposer` ends with a call of `resolve_market` of the market contract of its
-- configuration, whether or not the candidate has a passphrase hash.
pub arbitrate_uphold_proposer-CallsBack :
    (f k : ℕ) (env : Env) (w w' : World) (c : ResolutionCandidate)
    → arbitrate_uphold_proposer f k env w ≡ ok (c, w')
    → (config : ResolutionConfig) × (w.storage.config ≡ some config)
      × CallsBack env config c
          (λ id. resolve_market env.this id c.outcome c.signature c.signature_expiry)
          w'
unfolding arbitrate_uphold_proposer
arbitrate_uphold_proposer-CallsBack f k env w w' c h =
    let (p, w1, opened, rest) =
      >>=-eq-ok (close_arbitrated finalized f k) (λ p. pay_upheld p.0 k p.1 >> then_arbitrated k p)
        env w c w' h in
    let (u, w2, paying, then) =
      >>=-eq-ok (pay_upheld p.0 k p.1) (λ u. then_arbitrated k p) env w1 c w' rest in
    let (same, calls) = arbitrated-resolve k p env w2 w' c then in
    (p.0, close_arbitrated-config finalized f k env w w1 p opened, rw same calls)
