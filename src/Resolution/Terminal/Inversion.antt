-- ===== src/Resolution/Terminal/Inversion.antt =====
-- What a return of `finalize`, `arbitrate_uphold_proposer` or `void_market` says of its guards and of
-- the two halves of its work (contracts/resolution/src/lib.rs).
use vatix_contract.Prelude.{
  ℕ, some, Option-cases, inl, inr, ◌≡◌, ok, ⊤, ◌>>=◌, ◌>>◌, >>=-eq-ok, ask, pure, update, arith,
}
use vatix_contract.Resolution.Types.{
  Address, CandidateStatus, finalized, voided, ResolutionCandidate, ResolutionConfig,
}
use vatix_contract.Resolution.World.{MarketCall, Env, World, M}
use vatix_contract.Resolution.Events.{
  emit_candidate_finalized, emit_candidate_arbitrated, emit_market_voided,
}
use vatix_contract.Resolution.Guards.{invoke_market}
use vatix_contract.Resolution.Bonds.{resolve_v1, resolve}
use vatix_contract.Resolution.Bonds.Payments.{Pays}
use vatix_contract.Resolution.Terminal.Payout.{pay_upheld, pay_voided}
use vatix_contract.Resolution.Terminal.{
  close_finalized, finalize, close_arbitrated, arbitrate_uphold_proposer, void_market,
}
use vatix_contract.Resolution.Lifecycle.{IsFinalizable, IsArbitrable}

-- The candidate as it is written at the end of its dispute.
abbrev pub ended : Env → CandidateStatus → ResolutionCandidate → ResolutionCandidate
ended env s c = record c { status = s; finalized_at = some env.timestamp }

abbrev pub with_candidate : ResolutionCandidate → World → World
with_candidate c w = record w {
  storage = record w.storage {
    candidate = update w.storage.candidate c.id (some c);
    candidate_by_market = update w.storage.candidate_by_market c.market_id (some c.id);
  };
}

-- A dispute over `k` ended in the status `s`: `pay` ran on the closed candidate, and what followed
-- moved no token and wrote nothing.
pub record Ends (env : Env) (t : Address) (k : ℕ) (s : CandidateStatus)
    (May : ℕ → ResolutionCandidate → Type 0)
    (pay : ResolutionConfig → ℕ → ResolutionCandidate → M ⊤) (w w' : World) : Type 0 where
  pub config : ResolutionConfig
  pub before : ResolutionCandidate
  pub middle : World
  pub configured : w.storage.config ≡ some config
  pub stored : w.storage.candidate k ≡ some before
  pub may : May env.timestamp before
  pub paid_out :
      pay config k (ended env s before) env (with_candidate (ended env s before) w)
      ≡ ok (tt, middle)
  pub after : Pays env.this t 0 middle w'

module _ (env : Env) (w w' : World) (t k : ℕ) where
  -- The opening half of `finalize`.
  close_finalized_lem :
      (f : Address) (config : ResolutionConfig) (c' : ResolutionCandidate)
      → close_finalized f k env w ≡ ok ((config, c'), w')
      → (c : ResolutionCandidate) × (w.storage.config ≡ some config)
        × (w.storage.candidate k ≡ some c)
        × IsFinalizable env.timestamp c
        × (c' ≡ ended env finalized c)
        × (w' ≡ with_candidate c' w)
  unfolding close_finalized
  close_finalized_lem f config c' h = elim (Option-cases (w.storage.candidate k)) [
    | inl absent ↦ ground arith
    | inr (c, e) ↦ (c, ground arith, e, ground arith, ground arith, ground arith)
  ]

  -- The opening half of the administrator's two entry points.
  close_arbitrated_lem :
      (s : CandidateStatus) (f : Address) (config : ResolutionConfig) (c' : ResolutionCandidate)
      → close_arbitrated s f k env w ≡ ok ((config, c'), w')
      → (c : ResolutionCandidate) × (w.storage.config ≡ some config)
        × (w.storage.candidate k ≡ some c)
        × IsArbitrable env.timestamp c
        × (c' ≡ ended env s c)
        × (w' ≡ with_candidate c' w)
  unfolding close_arbitrated
  close_arbitrated_lem s f config c' h = elim (Option-cases (w.storage.candidate k)) [
    | inl absent ↦ ground arith
    | inr (c, e) ↦ (c, ground arith, e, ground arith, ground arith, ground arith)
  ]

-- The steps behind the payments, which answer with the closed candidate.
abbrev pub then_finalized : ResolutionConfig × ResolutionCandidate → M ResolutionCandidate
then_finalized p = do emit_candidate_finalized p.1; resolve p.0 p.1; pure p.1

abbrev pub then_arbitrated : ℕ → ResolutionConfig × ResolutionCandidate → M ResolutionCandidate
then_arbitrated k p = do
  emit_candidate_arbitrated k p.1.market_id p.1.outcome
  resolve_v1 p.0 p.1
  pure p.1

abbrev then_voided : ℕ → ResolutionConfig × ResolutionCandidate → M ResolutionCandidate
then_voided k p = do
  emit_market_voided k p.1.market_id
  this ← ask (λ env. env.this)
  invoke_market p.0.market_contract (MarketCall.void_market this p.1.market_id)
  pure p.1

module _ (env : Env) (w w' : World) (t k : ℕ) where
  then_finalized-Pays :
      (p : ResolutionConfig × ResolutionCandidate) (c : ResolutionCandidate)
      → then_finalized p env w ≡ ok (c, w')
      → Pays env.this t 0 w w'
  then_finalized-Pays p c h = elim (Option-cases p.1.passphrase_hash) [
    | inl absent ↦ ground arith
    | inr (hash, e) ↦ ground arith
  ]

  then_arbitrated-Pays :
      (p : ResolutionConfig × ResolutionCandidate) (c : ResolutionCandidate)
      → then_arbitrated k p env w ≡ ok (c, w')
      → Pays env.this t 0 w w'
  then_arbitrated-Pays p c h = ground arith

  then_voided-Pays :
      (p : ResolutionConfig × ResolutionCandidate) (c : ResolutionCandidate)
      → then_voided k p env w ≡ ok (c, w')
      → Pays env.this t 0 w w'
  then_voided-Pays p c h = ground arith

module _ (env : Env) (w w' : World) (t k : ℕ) (f : Address) (c' : ResolutionCandidate) where
  pub finalize-Ends :
      finalize f k env w ≡ ok (c', w') → Ends env t k finalized IsFinalizable pay_upheld w w'
  unfolding finalize
  finalize-Ends h =
      let (p, w1, opened, rest) =
        >>=-eq-ok (close_finalized f k) (λ p. pay_upheld p.0 k p.1 >> then_finalized p) env w c' w'
          h in
      let (u, w2, paying, then) =
        >>=-eq-ok (pay_upheld p.0 k p.1) (λ u. then_finalized p) env w1 c' w' rest in
      let (c, configured, stored, may, same, written) =
        close_finalized_lem env w w1 t k f p.0 p.1 opened in
      record {
        config = p.0;
        before = c;
        middle = w2;
        configured = configured;
        stored = stored;
        may = may;
        paid_out = rw (← same, ← written) paying;
        after = then_finalized-Pays env w2 w' t k p c' then;
      }

  pub arbitrate_uphold_proposer-Ends :
      arbitrate_uphold_proposer f k env w ≡ ok (c', w')
      → Ends env t k finalized IsArbitrable pay_upheld w w'
  unfolding arbitrate_uphold_proposer
  arbitrate_uphold_proposer-Ends h =
      let (p, w1, opened, rest) =
        >>=-eq-ok (close_arbitrated finalized f k)
          (λ p. pay_upheld p.0 k p.1 >> then_arbitrated k p) env w c' w' h in
      let (u, w2, paying, then) =
        >>=-eq-ok (pay_upheld p.0 k p.1) (λ u. then_arbitrated k p) env w1 c' w' rest in
      let (c, configured, stored, may, same, written) =
        close_arbitrated_lem env w w1 t k finalized f p.0 p.1 opened in
      record {
        config = p.0;
        before = c;
        middle = w2;
        configured = configured;
        stored = stored;
        may = may;
        paid_out = rw (← same, ← written) paying;
        after = then_arbitrated-Pays env w2 w' t k p c' then;
      }

  pub void_market-Ends :
      void_market f k env w ≡ ok (c', w') → Ends env t k voided IsArbitrable pay_voided w w'
  unfolding void_market
  void_market-Ends h =
      let (p, w1, opened, rest) =
        >>=-eq-ok (close_arbitrated voided f k) (λ p. pay_voided p.0 k p.1 >> then_voided k p) env w
          c' w' h in
      let (u, w2, paying, then) =
        >>=-eq-ok (pay_voided p.0 k p.1) (λ u. then_voided k p) env w1 c' w' rest in
      let (c, configured, stored, may, same, written) =
        close_arbitrated_lem env w w1 t k voided f p.0 p.1 opened in
      record {
        config = p.0;
        before = c;
        middle = w2;
        configured = configured;
        stored = stored;
        may = may;
        paid_out = rw (← same, ← written) paying;
        after = then_voided-Pays env w2 w' t k p c' then;
      }
