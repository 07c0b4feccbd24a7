-- ===== src/Resolution/Lifecycle/Filing.antt =====
-- What a return of `propose` or `propose_v2` has done (contracts/resolution/src/lib.rs).
use vatix_contract.Prelude.{
  ℕ, ◌+◌, ℤ, Bool, true, Option, none, some, Option-cases, ◌∷◌, ◌≡◌, refl, inl, inr, ok, unwrap_or,
  arith,
}
use vatix_contract.Resolution.Types.{
  Address, Bytes, proposed, ResolutionCandidate, ResolutionConfig,
}
use vatix_contract.Resolution.World.{Event, candidate_proposed, transfer, publish, Env, World}
use vatix_contract.Resolution.Candidates.{propose, propose_v2}
use vatix_contract.Resolution.Lifecycle.{docket, IsFiling, file}

-- The candidate that `propose` and `propose_v2` file.
abbrev pub filed :
    Env
    → World
    → ℕ
    → Bool
    → Bytes
    → ℕ
    → Address
    → Bytes
    → ℕ
    → ℤ
    → ℕ
    → Option Bytes
    → ResolutionCandidate
filed env w market_id outcome signature expiry proposer uri window bond epoch hash = record {
  id = unwrap_or w.storage.candidate_counter 0 + 1;
  market_id = market_id;
  outcome = outcome;
  signature = signature;
  signature_expiry = expiry;
  proposer = proposer;
  evidence_uri = uri;
  proposed_at = env.timestamp;
  challenge_deadline = env.timestamp + window;
  status = proposed;
  challenged_by = none;
  challenge_uri = none;
  finalized_at = none;
  appeal_round = 0;
  bond_amount = bond;
  epoch = epoch;
  passphrase_hash = hash;
}

-- What a return of `propose` or `propose_v2` has done: the candidate `c` is filed, and its bond was
-- taken from the proposer, in the collateral token of the market, by the last call of the log.
pub record Opened (env : Env) (w w' : World) (c : ResolutionCandidate) (token : Address)
    : Type 0 where
  pub filing : IsFiling env.timestamp c
  pub free : w.storage.candidate_by_market c.market_id ≡ none
  pub next : c.id ≡ unwrap_or w.storage.candidate_counter 0 + 1
  pub docket' : docket w'.storage ≡ record (file c (docket w.storage)) { counter = c.id }
  pub signed : env.authorized c.proposer ≡ true
  pub config : ResolutionConfig
  pub configured : w.storage.config ≡ some config
  pub asked : env.get_collateral_token w.log config.market_contract c.market_id ≡ some token
  pub log' :
      (middle : Event) × (w'.log
        ≡ transfer token c.proposer env.this c.bond_amount ∷ publish middle ∷ w.log)

-- The answers that a return of an entry point rests on: the configuration and the collateral token.
abbrev pub Answers : Env → World → ℕ → Type 0
Answers env w m =
    (config : ResolutionConfig) × (token : Address) × (w.storage.config ≡ some config)
    × (env.get_collateral_token w.log config.market_contract m ≡ some token)

module _ (env : Env) (w w' : World) where
  propose-Answers :
      (p m : ℕ) (o : Bool) (sig : Bytes) (exp : ℕ) (uri : Bytes) (win : ℕ) (b : ℤ) (id : ℕ)
      → propose p m o sig exp uri win b env w ≡ ok (id, w')
      → Answers env w m
  unfolding propose
  propose-Answers p m o sig exp uri win b id h = elim (Option-cases w.storage.config) [
    | inl absent ↦ absurd (ground arith)
    | inr (config, e) ↦
        elim (Option-cases (env.get_collateral_token w.log config.market_contract m)) [
          | inl absent ↦ absurd (ground arith)
          | inr (token, f) ↦ (config, token, e, f)
        ]
  ]

  pub propose-Opened :
      (p m : ℕ) (o : Bool) (sig : Bytes) (exp : ℕ) (uri : Bytes) (win : ℕ) (b : ℤ) (id : ℕ)
      → propose p m o sig exp uri win b env w ≡ ok (id, w')
      → (token : Address) × Opened env w w' (filed env w m o sig exp p uri win b 0 none) token
  unfolding propose
  propose-Opened p m o sig exp uri win b id h =
      let (config, token, e, f) = propose-Answers p m o sig exp uri win b id h in
      (
        token,
        record {
          filing = ground arith;
          free = ground arith;
          next = refl;
          docket' = ground arith;
          signed = ground arith;
          config = config;
          configured = e;
          asked = f;
          log' = (
            candidate_proposed (unwrap_or w.storage.candidate_counter 0 + 1) m o p uri
                (env.timestamp + win) exp b,
            ground arith,
          );
        },
      )

  propose_v2-Answers :
      (p m : ℕ) (o : Bool) (sig : Bytes) (exp epoch : ℕ) (hash uri : Bytes) (win : ℕ) (b : ℤ)
      (id : ℕ)
      → propose_v2 p m o sig exp epoch hash uri win b env w ≡ ok (id, w')
      → Answers env w m
  unfolding propose_v2
  propose_v2-Answers p m o sig exp epoch hash uri win b id h =
      elim (Option-cases w.storage.config) [
        | inl absent ↦ absurd (ground arith)
        | inr (config, e) ↦
            elim (Option-cases (env.get_collateral_token w.log config.market_contract m)) [
              | inl absent ↦ absurd (ground arith)
              | inr (token, f) ↦ (config, token, e, f)
            ]
      ]

  pub propose_v2-Opened :
      (p m : ℕ) (o : Bool) (sig : Bytes) (exp epoch : ℕ) (hash uri : Bytes) (win : ℕ) (b : ℤ)
      (id : ℕ)
      → propose_v2 p m o sig exp epoch hash uri win b env w ≡ ok (id, w')
      → (token : Address) × Opened env w w'
          (filed env w m o sig exp p uri win b epoch (some hash))
          token
  unfolding propose_v2
  propose_v2-Opened p m o sig exp epoch hash uri win b id h =
      let (config, token, e, f) = propose_v2-Answers p m o sig exp epoch hash uri win b id h in
      (
        token,
        record {
          filing = ground arith;
          free = ground arith;
          next = refl;
          docket' = ground arith;
          signed = ground arith;
          config = config;
          configured = e;
          asked = f;
          log' = (
            candidate_proposed (unwrap_or w.storage.candidate_counter 0 + 1) m o p uri
                (env.timestamp + win) exp b,
            ground arith,
          );
        },
      )
