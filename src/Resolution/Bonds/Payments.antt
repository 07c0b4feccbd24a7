-- ===== src/Resolution/Bonds/Payments.antt =====
-- What the payments of a settlement do: they leave the storage alone, and pay out no more than the
-- bonds that they settle (contracts/resolution/src/lib.rs, `split_bond` and the settlement loops).
use vatix_contract.Prelude.{
  ℕ, ◌+◌, ◌≤◌, ℤ, pos_part, ◌*ℤ◌, ◌-ℤ◌, ◌/ℤ◌, some, >>=-eq-ok, Option-cases, inl, inr, List, [],
  ◌∷◌, ◌≡◌, ok, arith,
}
use vatix_contract.Resolution.Types.{Address, ChallengeRecord, ResolutionCandidate}
use vatix_contract.Resolution.World.{Env, World}
use vatix_contract.Resolution.Money.{received, paid, bond_sum, in_token}
use vatix_contract.Resolution.Bonds.{
  split_amounts, pay_split, split_bond, slash_each, refund_one, refund_each,
}

-- From `w` to `w'` the storage is the same, and of the token `t` at most `n` was paid by `self`.
pub record Pays (self t : Address) (n : ℕ) (w w' : World) : Type 0 where
  pub same : w'.storage ≡ w.storage
  pub spent : paid self t w'.log ≤ paid self t w.log + n
  pub kept : received self t w.log ≤ received self t w'.log

-- The parts of a bond are together no more than the bond.
split_amounts_le :
    (total : ℤ) {r b c : ℤ}
    → split_amounts total ≡ some (r, b, c)
    → pos_part r + pos_part b + pos_part c ≤ pos_part total
unfolding split_amounts ◌-ℤ◌ ◌*ℤ◌ ◌/ℤ◌
split_amounts_le total h = ground arith

pay_split-Pays :
    (env : Env) (w w' : World) (t : Address) (k m : ℕ) (token loser winner : Address)
    (total r b c : ℤ)
    → pay_split k m token loser winner total (r, b, c) env w ≡ ok (tt, w')
    → Pays env.this t (in_token token t (pos_part r + pos_part b + pos_part c)) w w'
unfolding pay_split
pay_split-Pays env w w' t k m token loser winner total r b c h = ground arith

pub split_bond-Pays :
    (env : Env) (w w' : World) (t : Address) (k m : ℕ) (token loser winner : Address) (total : ℤ)
    → split_bond k m token loser winner total env w ≡ ok (tt, w')
    → Pays env.this t (in_token token t (pos_part total)) w w'
unfolding split_bond
split_bond-Pays env w w' t k m token loser winner total h =
    elim (Option-cases (split_amounts total)) [
      | inl panics ↦ ground arith
      | inr ((r, b, c), e) ↦ ground (
        arith,
        split_amounts_le total e,
        pay_split-Pays env w w' t k m token loser winner total r b c,
      )
    ]

pub slash_each-Pays :
    (env : Env) (w w' : World) (t : Address) (k : ℕ) (c : ResolutionCandidate) (token : Address)
    (rs : List ChallengeRecord)
    → slash_each k c token rs env w ≡ ok (tt, w')
    → Pays env.this t (in_token token t (bond_sum rs)) w w'
unfolding slash_each
slash_each-Pays env w w' t k c token [] h = ground arith
slash_each-Pays env w w' t k c token (r ∷ rs) h =
    let (u, w1, first, then) =
      >>=-eq-ok (split_bond k c.market_id token r.challenger c.proposer r.bond)
        (λ u. slash_each k c token rs) env w tt w' h in
    ground (
      arith,
      split_bond-Pays env w w1 t k c.market_id token r.challenger c.proposer r.bond,
      slash_each-Pays env w1 w' t k c token rs,
    )

refund_one-Pays :
    (env : Env) (w w' : World) (t : Address) (k : ℕ) (c : ResolutionCandidate) (token : Address)
    (r : ChallengeRecord)
    → refund_one k c token r env w ≡ ok (tt, w')
    → Pays env.this t (in_token token t (pos_part r.bond)) w w'
unfolding refund_one
refund_one-Pays env w w' t k c token r h = ground arith

pub refund_each-Pays :
    (env : Env) (w w' : World) (t : Address) (k : ℕ) (c : ResolutionCandidate) (token : Address)
    (rs : List ChallengeRecord)
    → refund_each k c token rs env w ≡ ok (tt, w')
    → Pays env.this t (in_token token t (bond_sum rs)) w w'
unfolding refund_each
refund_each-Pays env w w' t k c token [] h = ground arith
refund_each-Pays env w w' t k c token (r ∷ rs) h =
    let (u, w1, first, then) =
      >>=-eq-ok (refund_one k c token r) (λ u. refund_each k c token rs) env w tt w' h in
    ground
      (arith, refund_one-Pays env w w1 t k c token r, refund_each-Pays env w1 w' t k c token rs)
