-- ===== src/Resolution/Terminal/Settlement.antt =====
-- The payments that end a dispute, as a whole: the list of challengers is cleared, and no more is
-- paid out than the bonds on record (contracts/resolution/src/lib.rs).
use vatix_contract.Prelude.{
  ℕ, ◌+◌, ◌≤◌, pos_part, some, List, [], ◌∷◌, ◌≡◌, refl, ok, ◌>>◌, when, ltb_ℤ, pos, unwrap_or,
  update, >>=-eq-ok, arith,
}
use vatix_contract.Resolution.Types.{
  Address, ChallengeRecord, ResolutionCandidate, ResolutionConfig,
}
use vatix_contract.Resolution.World.{Env, World}
use vatix_contract.Resolution.Storage.{clear_challengers}
use vatix_contract.Resolution.Money.{received, paid, bond_sum, in_token}
use vatix_contract.Resolution.Bonds.{
  split_bond, slash_each, settle_list, settle_challengers_as_losers, refund_each, refund_proposer,
}
use vatix_contract.Resolution.Terminal.Payout.{
  reward_recipient, void_payments, pay_upheld, pay_voided,
}
use vatix_contract.Resolution.Guards.{get_collateral_token}
use vatix_contract.Resolution.Bonds.Payments.{
  Pays, split_bond-Pays, slash_each-Pays, refund_each-Pays,
}

-- From `w` to `w'` the challengers of `k` are cleared and nothing else is written.
pub record Settles (self t : Address) (k n : ℕ) (w w' : World) : Type 0 where
  pub cleared : w'.storage ≡ record w.storage { challengers = w'.storage.challengers }
  pub challengers :
      (j : ℕ)
      → unwrap_or (w'.storage.challengers j) []
        ≡ update (λ i. unwrap_or (w.storage.challengers i) []) k [] j
  pub spent : paid self t w'.log ≤ paid self t w.log + n
  pub kept : received self t w.log ≤ received self t w'.log

module _ (env : Env) (w w' : World) (t : Address) (k : ℕ) (c : ResolutionCandidate) where
  settle_list-Settles :
      (token : Address) (rs : List ChallengeRecord)
      → unwrap_or (w.storage.challengers k) [] ≡ rs
      → settle_list k c token rs env w ≡ ok (tt, w')
      → Settles env.this t k (in_token token t (bond_sum rs)) w w'
  unfolding settle_list
  settle_list-Settles token [] e h = ground arith
  settle_list-Settles token (r ∷ rs) e h =
      let (u, w1, first, then) =
        >>=-eq-ok (slash_each k c token (r ∷ rs)) (λ u. clear_challengers k) env w tt w' h in
      ground (arith, slash_each-Pays env w w1 t k c token (r ∷ rs))

  settle-Settles :
      (token : Address)
      → settle_challengers_as_losers k c token env w ≡ ok (tt, w')
      → Settles env.this t k
          (in_token token t (bond_sum (unwrap_or (w.storage.challengers k) [])))
          w
          w'
  unfolding settle_challengers_as_losers
  settle-Settles token h = settle_list-Settles token _ refl h

  refund_proposer-Pays :
      (token : Address)
      → refund_proposer c token env w ≡ ok (tt, w')
      → Pays env.this t (in_token token t (pos_part c.bond_amount)) w w'
  unfolding refund_proposer
  refund_proposer-Pays token h = ground arith

  void_payments-Settles :
      (token : Address)
      → void_payments k c token env w ≡ ok (tt, w')
      → Settles env.this t k
          (in_token token t
            (pos_part c.bond_amount + bond_sum (unwrap_or (w.storage.challengers k) [])))
          w
          w'
  unfolding void_payments
  void_payments-Settles token h =
      let rs = unwrap_or (w.storage.challengers k) [] in
      let winner = reward_recipient rs c.proposer in
      let split = split_bond k c.market_id token c.proposer winner c.bond_amount in
      let (u, w1, first, rest) =
        >>=-eq-ok (when (ltb_ℤ (pos 0) c.bond_amount) split)
          (λ u. refund_each k c token rs >> clear_challengers k) env w tt w' h in
      let (v, w2, second, then) =
        >>=-eq-ok (refund_each k c token rs) (λ u. clear_challengers k) env w1 tt w' rest in
      ground (
        arith,
        split_bond-Pays env w w1 t k c.market_id token c.proposer winner c.bond_amount,
        refund_each-Pays env w1 w2 t k c token rs,
      )

-- The payments in the collateral token of the candidate's market, of at most `n`.
pub record Closes (env : Env) (t : Address) (config : ResolutionConfig) (k : ℕ)
    (c : ResolutionCandidate) (n : ℕ) (w w' : World) : Type 0 where
  pub token : Address
  pub asked : env.get_collateral_token w.log config.market_contract c.market_id ≡ some token
  pub settles : Settles env.this t k (in_token token t n) w w'

module _ (env : Env) (w w' : World) (t : Address) (config : ResolutionConfig) (k : ℕ)
    (c : ResolutionCandidate) where
  abbrev total : ℕ
  total = pos_part c.bond_amount + bond_sum (unwrap_or (w.storage.challengers k) [])

  pub pay_upheld-Closes :
      pay_upheld config k c env w ≡ ok (tt, w') → Closes env t config k c total w w'
  unfolding pay_upheld
  pay_upheld-Closes h =
      let (token, w0, asked, rest) =
        >>=-eq-ok (get_collateral_token config c.market_id)
          (λ token. refund_proposer c token >> settle_challengers_as_losers k c token) env w tt w'
          h in
      let (u, w1, first, then) =
        >>=-eq-ok (refund_proposer c token) (λ u. settle_challengers_as_losers k c token) env w0 tt
          w' rest in
      record {
        token = token;
        asked = ground arith;
        settles = ground (
          arith,
          refund_proposer-Pays env w0 w1 t k c token,
          settle-Settles env w1 w' t k c token,
        );
      }

  pub pay_voided-Closes :
      pay_voided config k c env w ≡ ok (tt, w') → Closes env t config k c total w w'
  unfolding pay_voided
  pay_voided-Closes h =
      let (token, w0, asked, rest) =
        >>=-eq-ok (get_collateral_token config c.market_id) (λ token. void_payments k c token) env w
          tt w' h in
      record {
        token = token;
        asked = ground arith;
        settles = ground (arith, void_payments-Settles env w0 w' t k c token);
      }
