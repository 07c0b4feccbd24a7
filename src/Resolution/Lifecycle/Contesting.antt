-- ===== src/Resolution/Lifecycle/Contesting.antt =====
-- What a return of `challenge` or `appeal` has done (contracts/resolution/src/lib.rs).
use mathlib.Core.Path.{fun_ext}
use vatix_contract.Prelude.{
  ℕ, ◌+◌, ℤ, Bool, true, Option, none, some, Option-cases, List, [], ◌∷◌, ◌++◌, ◌≡◌, inl, inr, ok,
  update, unwrap_or, arith,
}
use vatix_contract.Resolution.Types.{
  Address, Bytes, proposed, challenged, ChallengeRecord, ResolutionCandidate, ResolutionConfig,
}
use vatix_contract.Resolution.World.{
  Event, candidate_challenged, candidate_appealed, transfer, publish, Env, World,
}
use vatix_contract.Resolution.Candidates.{challenge, appeal}
use vatix_contract.Resolution.Lifecycle.{docket, IsContest, IsAppeal, file, set_challengers}
use vatix_contract.Resolution.Lifecycle.Filing.{Answers}

-- A write of one list of challengers, in the abstract view.
challengers-update :
    (f : ℕ → Option (List ChallengeRecord)) (k : ℕ) (v : Option (List ChallengeRecord))
    → ◌≡◌ {A = ℕ → List ChallengeRecord}
        (λ j. unwrap_or (update f k v j) [])
        (update (λ j. unwrap_or (f j) []) k (unwrap_or v []))
challengers-update f k v = fun_ext (λ j. ground arith)

-- What a return of `challenge` has done: the candidate `c` is challenged by `r`, whose bond was taken.
pub record Contested (env : Env) (w w' : World) (k : ℕ) (c c' : ResolutionCandidate)
    (r : ChallengeRecord) (token : Address) : Type 0 where
  pub stored : w.storage.candidate k ≡ some c
  pub contest : IsContest env.timestamp r c c'
  pub docket' :
      docket w'.storage
      ≡ set_challengers k ((docket w.storage).challengers k ++ r ∷ []) (file c' (docket w.storage))
  pub signed : env.authorized r.challenger ≡ true
  pub config : ResolutionConfig
  pub asked : env.get_collateral_token w.log config.market_contract c.market_id ≡ some token
  pub log' :
      (last : Event) × (w'.log ≡ publish last ∷ transfer token r.challenger env.this r.bond ∷ w.log)

-- The same of an appeal, which moves no token.
pub record Appealed (env : Env) (w w' : World) (k : ℕ) (c c' : ResolutionCandidate) : Type 0 where
  pub stored : w.storage.candidate k ≡ some c
  pub appeal : IsAppeal env.timestamp c c'
  pub docket' : docket w'.storage ≡ file c' (docket w.storage)
  pub log' : (last : Event) × (w'.log ≡ publish last ∷ w.log)

module _ (env : Env) (w w' : World) where
  -- The candidate that a return of `challenge` or `appeal` has found, and the answers for it.
  challenge-Answers :
      (p k : ℕ) (uri : Bytes) (b : ℤ)
      → challenge p k uri b env w ≡ ok (tt, w')
      → (c : ResolutionCandidate) × (w.storage.candidate k ≡ some c) × Answers env w c.market_id
  unfolding challenge
  challenge-Answers p k uri b h = elim (Option-cases (w.storage.candidate k)) [
    | inl absent ↦ absurd (ground arith)
    | inr (c, e) ↦ elim (Option-cases w.storage.config) [
      | inl absent ↦ absurd (ground arith)
      | inr (config, f) ↦
          elim (Option-cases (env.get_collateral_token w.log config.market_contract c.market_id)) [
            | inl absent ↦ absurd (ground arith)
            | inr (token, g) ↦ (c, e, (config, token, f, g))
          ]
    ]
  ]

  pub challenge-Contested :
      (p k : ℕ) (uri : Bytes) (b : ℤ)
      → challenge p k uri b env w ≡ ok (tt, w')
      → (c c' : ResolutionCandidate) × (token : Address) × Contested env w w' k c c'
          (record { challenger = p; bond = b })
          token
  unfolding challenge
  challenge-Contested p k uri b h =
      let (c, e, answers) = challenge-Answers p k uri b h in
      let (config, token, f, g) = answers in
      (
        c,
        record c { status = challenged; challenged_by = some p; challenge_uri = some uri },
        token,
        record {
          stored = e;
          contest = ground arith;
          docket' = ground (
            arith,
            challengers-update w.storage.challengers k (
                some (
                  unwrap_or (w.storage.challengers k) []
                  ++ record { challenger = p; bond = b } ∷ [])),
          );
          signed = ground arith;
          config = config;
          asked = g;
          log' = (candidate_challenged k c.market_id p uri b env.timestamp, ground arith);
        },
      )

  pub appeal-Appealed :
      (p k : ℕ) (o : Bool) (sig uri : Bytes) (win : ℕ)
      → appeal p k o sig uri win env w ≡ ok (tt, w')
      → (c c' : ResolutionCandidate) × Appealed env w w' k c c'
  unfolding appeal
  appeal-Appealed p k o sig uri win h = elim (Option-cases (w.storage.candidate k)) [
    | inl absent ↦ absurd (ground arith)
    | inr (c, e) ↦
        let c' : ResolutionCandidate = record c {
          outcome = o;
          signature = sig;
          evidence_uri = uri;
          proposed_at = env.timestamp;
          challenge_deadline = env.timestamp + win;
          status = proposed;
          challenged_by = none;
          challenge_uri = none;
          appeal_round = c.appeal_round + 1;
        } in
        (
          c,
          c',
          record {
            stored = e;
            appeal = ground arith;
            docket' = ground arith;
            log' = (
              candidate_appealed c'.id c'.market_id o c'.proposer c'.appeal_round uri
                  c'.challenge_deadline env.timestamp,
              ground arith,
            );
          },
        )
  ]
