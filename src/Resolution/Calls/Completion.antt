-- ===== src/Resolution/Calls/Completion.antt =====
-- When the end of a dispute goes through: `finalize` returns (contracts/resolution/src/lib.rs).
use vatix_contract.Prelude.{
  Every, Option, negsuc, zero, suc, ℕ, ◌*◌, ◌-◌, ◌/◌, ◌≤◌, ◌<◌, ◌^◌, ℤ, pos, pos_part, true, false,
  Bool, none, some, Option-cases, inl, inr, List, [], ◌∷◌, ⊤, ok, when, ◌>>=◌, ◌>>◌, ◌≡◌, ◌≢◌,
  subst, sym, refl, i128_max, unwrap_or, ltb_ℤ, arith,
}
use vatix_contract.Resolution.Types.{
  Address, global_freeze, normal, finalized, ChallengeRecord, ResolutionCandidate, ResolutionConfig,
}
use vatix_contract.Resolution.World.{
  Env, World, Log, bond_slashed, candidate_finalized, invoke, publish, Effect, MarketCall, M,
}
use vatix_contract.Resolution.Guards.{transfer, burn}
use vatix_contract.Resolution.Storage.{get_treasury, clear_challengers}
use vatix_contract.Resolution.Events.{emit_bond_slashed}
use vatix_contract.Resolution.Bonds.{
  split_amounts, pay_treasury, pay_split, split_bond, slash_each, settle_list,
  settle_challengers_as_losers, refund_proposer,
}
use vatix_contract.Resolution.Bonds.Split.{split_amounts_lem}
use vatix_contract.Resolution.Terminal.{close_finalized, finalize}
use vatix_contract.Resolution.Terminal.Payout.{pay_upheld}
use vatix_contract.Resolution.Terminal.Inversion.{then_finalized, ended, with_candidate}
use vatix_contract.Resolution.Lifecycle.{IsFinalizable}
use vatix_contract.Resolution.Calls.Callback.{scheme_call}
use vatix_contract.Market.Validation.Identifiers.{parse_market_id-market_id_to_string}

-- A host whose other contracts answer every call of a transfer, a burn and the market, and know each
-- market's collateral token.
pub record IsAnswering (env : Env) : Type 0 where
  pub transfers :
      (l : Log) (token from to : Address) (n : ℤ) → env.transfer_returns l token from to n ≡ true
  pub burns : (l : Log) (token from : Address) (n : ℤ) → env.burn_returns l token from n ≡ true
  pub calls : (l : Log) (a : Address) (call : MarketCall) → env.market_call_returns l a call ≡ true
  pub tokens :
      (l : Log) (a : Address) (m : ℕ)
      → (token : Address) × (env.get_collateral_token l a m ≡ some token)

abbrev pub Returns : {A : Type 0} → M A → Env → World → Type 0
Returns {A = A} m env w = (a : A) × (w' : World) × (m env w ≡ ok (a, w'))

module _ (env : Env) (host : IsAnswering env) where
  pub and_then :
      {A B : Type 0} (m : M A) (f : A → M B) (w : World)
      → Returns m env w
      → ((a : A) (w' : World) → m env w ≡ ok (a, w') → Returns (f a) env w')
      → Returns (m >>= f) env w
  and_then m f w (a, w1, e) rest = let (b, w2, h) = rest a w1 e in (b, w2, ground (arith, e, h))

  pub transfer-Returns :
      (token from to : Address) (n : ℤ) (w : World) → Returns (transfer token from to n) env w
  transfer-Returns token from to n w = (
    tt,
    record w { log = Effect.transfer token from to n ∷ w.log },
    rw (host.transfers w.log token from to n) refl,
  )

  burn-Returns : (token from : Address) (n : ℤ) (w : World) → Returns (burn token from n) env w
  burn-Returns token from n w = (
    tt,
    record w { log = Effect.burn token from n ∷ w.log },
    rw (host.burns w.log token from n) refl,
  )

  pub when-Returns : (b : Bool) (m : M ⊤) (w : World) → Returns m env w → Returns (when b m) env w
  when-Returns true m w r = r
  when-Returns false m w r = (tt, w, refl)

  treasury-Returns :
      (token : Address) (n : ℤ) (w : World)
      → Returns (get_treasury >>= λ t. pay_treasury token t n) env w
  treasury-Returns token n w = go w.storage.treasury
    where
      go : (t : Option Address) → Returns (pay_treasury token t n) env w
      go none = (tt, w, refl)
      go (some t) = transfer-Returns token env.this t n w

  pay_split-Returns :
      (k m : ℕ) (token loser winner : Address) (total r b c : ℤ) (w : World)
      → Returns (pay_split k m token loser winner total (r, b, c)) env w
  unfolding pay_split
  pay_split-Returns k m token loser winner total r b c w =
      let reward = when (ltb_ℤ (pos 0) r) (transfer token env.this winner r) in
      let burning = when (ltb_ℤ (pos 0) b) (burn token env.this b) in
      let pay_cut = get_treasury >>= λ t. pay_treasury token t c in
      let cut = when (ltb_ℤ (pos 0) c) pay_cut in
      let emitted = emit_bond_slashed k m loser winner total r b c in
      let slashed = bond_slashed k m loser winner total r b c env.timestamp in
      and_then reward (λ u. burning >> (cut >> emitted)) w
        (when-Returns (ltb_ℤ (pos 0) r) (transfer token env.this winner r) w
          (transfer-Returns token env.this winner r w))
        (λ u w1 e1.
          and_then burning (λ u. cut >> emitted) w1
            (when-Returns (ltb_ℤ (pos 0) b) (burn token env.this b) w1
              (burn-Returns token env.this b w1))
            (λ u w2 e2.
              and_then cut (λ u. emitted) w2
                (when-Returns (ltb_ℤ (pos 0) c) pay_cut w2 (treasury-Returns token c w2))
                (λ u w3 e3. (tt, record w3 { log = publish slashed ∷ w3.log }, refl))))

  -- A bond whose product with 5000 is an i128.
  abbrev pub Splits : ChallengeRecord → Type 0
  Splits r = pos_part r.bond * 5000 ≤ i128_max

  pub split_bond-Returns :
      (k m : ℕ) (token loser winner : Address) (total : ℤ) (w : World)
      → pos_part total * 5000 ≤ i128_max
      → Returns (split_bond k m token loser winner total) env w
  unfolding split_bond
  split_bond-Returns k m token loser winner (negsuc n) w fits = (tt, w, ground arith)
  split_bond-Returns k m token loser winner (pos zero) w fits = (tt, w, ground arith)
  split_bond-Returns k m token loser winner (pos (suc j)) w fits =
      let n = suc j in
      let r = pos (n / 2) in
      let b = pos (n / 4) in
      let c = pos (n - n / 2 - n / 4) in
      let parts : split_amounts (pos (suc j)) ≡ some (r, b, c) =
        ground (arith, split_amounts_lem (suc j)) in
      let (u, w', paid) = pay_split-Returns k m token loser winner (pos (suc j)) r b c w in
      (tt, w', ground (arith, parts, paid))

  slash_each-Returns :
      (k : ℕ) (c : ResolutionCandidate) (token : Address) (rs : List ChallengeRecord) (w : World)
      → Every Splits rs
      → Returns (slash_each k c token rs) env w
  unfolding slash_each
  slash_each-Returns k c token [] w fits = (tt, w, refl)
  slash_each-Returns k c token (r ∷ rs) w (fits, more) =
      and_then (split_bond k c.market_id token r.challenger c.proposer r.bond)
        (λ u. slash_each k c token rs) w
        (split_bond-Returns k c.market_id token r.challenger c.proposer r.bond w fits)
        (λ u w' e. slash_each-Returns k c token rs w' more)

  settle-Returns :
      (k : ℕ) (c : ResolutionCandidate) (token : Address) (w : World)
      → Every Splits (unwrap_or (w.storage.challengers k) [])
      → Returns (settle_challengers_as_losers k c token) env w
  unfolding settle_challengers_as_losers settle_list
  settle-Returns k c token w fits = go (unwrap_or (w.storage.challengers k) []) fits
    where
      go : (rs : List ChallengeRecord) → Every Splits rs → Returns (settle_list k c token rs) env w
      go [] fits = (tt, w, refl)
      go (r ∷ rs) fits =
          and_then (slash_each k c token (r ∷ rs)) (λ u. clear_challengers k) w
            (slash_each-Returns k c token (r ∷ rs) w fits) (λ u w' e. (tt, _, refl))

  pub pay_upheld-Returns :
      (config : ResolutionConfig) (k : ℕ) (c : ResolutionCandidate) (w : World)
      → Every Splits (unwrap_or (w.storage.challengers k) [])
      → Returns (pay_upheld config k c) env w
  unfolding pay_upheld refund_proposer
  pay_upheld-Returns config k c w fits =
      let (token, asked) = host.tokens w.log config.market_contract c.market_id in
      let pay = transfer token env.this c.proposer c.bond_amount in
      let (u, w1, first) =
        when-Returns (ltb_ℤ (pos 0) c.bond_amount) pay w
          (transfer-Returns token env.this c.proposer c.bond_amount w) in
      let kept : w1.storage ≡ w.storage = ground arith in
      let (v, w2, second) =
        settle-Returns k c token w1
          (subst (λ s. Every Splits (unwrap_or (s.challengers k) [])) (sym kept) fits) in
      (tt, w2, ground (arith, asked, first, second))

  then_finalized-Returns :
      (p : ResolutionConfig × ResolutionCandidate) (w : World)
      → p.1.market_id < 2 ^ 32
      → (w' : World) × (then_finalized p env w ≡ ok (p.1, w'))
  then_finalized-Returns p w small =
      let (id, named, read) = parse_market_id-market_id_to_string p.1.market_id small in
      let done = unwrap_or p.1.finalized_at env.timestamp in
      let said = publish (candidate_finalized p.1.id p.1.market_id p.1.outcome done) ∷ w.log in
      let call = scheme_call env.this id p.1 in
      let answered = host.calls said p.0.market_contract call in
      let w' : World = record w { log = invoke p.0.market_contract call ∷ said } in
      elim (Option-cases p.1.passphrase_hash) [
        | inl v1 ↦ (w', ground (arith, named, answered))
        | inr (hash, v2) ↦ (w', ground (arith, named, answered))
      ]

  -- The guards of `finalize` for the candidate `c`.
  close_finalized-returns :
      (f k : ℕ) (config : ResolutionConfig) (c : ResolutionCandidate) (w : World)
      → env.authorized f ≡ true
      → unwrap_or w.storage.paused false ≡ false
      → w.storage.storage_version ≡ some 1
      → w.storage.config ≡ some config
      → unwrap_or w.storage.emergency_mode normal ≢ global_freeze
      → w.storage.candidate k ≡ some c
      → c.id ≡ k
      → IsFinalizable env.timestamp c
      → close_finalized f k env w
        ≡ ok ((config, ended env finalized c), with_candidate (ended env finalized c) w)
  unfolding close_finalized
  close_finalized-returns f k config c w signed running current configured thawed stored own may =
      ground arith

  -- `finalize` returns the closed candidate, with nothing but status and time changed, for one whose
  -- challenge window has closed undisputed and whose signature has not expired: the caller signs, the
  -- contract is configured, current and not paused, the mode is not the global freeze, the market's
  -- number is a u32, no bond on record is so large that its split overflows, and the other contracts
  -- answer.
  pub finalize-Returns :
      (f k : ℕ) (config : ResolutionConfig) (c : ResolutionCandidate) (w : World)
      → env.authorized f ≡ true
      → unwrap_or w.storage.paused false ≡ false
      → w.storage.storage_version ≡ some 1
      → w.storage.config ≡ some config
      → unwrap_or w.storage.emergency_mode normal ≢ global_freeze
      → w.storage.candidate k ≡ some c
      → c.id ≡ k
      → IsFinalizable env.timestamp c
      → c.market_id < 2 ^ 32
      → Every Splits (unwrap_or (w.storage.challengers k) [])
      → (w' : World) × (finalize f k env w ≡ ok (ended env finalized c, w'))
  unfolding finalize
  finalize-Returns f k config c w signed running current configured thawed stored own may small
        fits =
      let closed = ended env finalized c in
      let w1 = with_candidate closed w in
      let opened =
        close_finalized-returns f k config c w signed running current configured thawed stored own
          may in
      let (u, w2, paid) = pay_upheld-Returns config k closed w1 fits in
      let (w3, called) = then_finalized-Returns (config, closed) w2 small in
      (w3, ground (arith, opened, paid, called))
