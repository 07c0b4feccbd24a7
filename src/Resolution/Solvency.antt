-- ===== src/Resolution/Solvency.antt =====
-- What the resolution contract owes in bonds, against the docket: the specification of solvency. The
-- children prove that every call keeps the contract able to pay (contracts/resolution/src/lib.rs).
pub mod Sums
pub mod Flows
pub mod Endings
pub mod Always
use vatix_contract.Prelude.{
  ℕ, zero, suc, ◌+◌, ◌≤◌, pos_part, Bool, false, Option, none, some, List, [], ◌∷◌, ◌≡◌, ⊤,
}
use vatix_contract.Resolution.Types.{
  Address, CandidateStatus, proposed, challenged, finalized, voided, ChallengeRecord,
  ResolutionCandidate,
}
use vatix_contract.Resolution.World.{Env, World}
use vatix_contract.Resolution.Money.{received, paid, bond_sum, in_token}
use vatix_contract.Resolution.Lifecycle.{Docket, docket}

-- f 1 + … + f n
abbrev pub sum_to : (ℕ → ℕ) → ℕ → ℕ
sum_to f zero = 0
sum_to f (suc n) = sum_to f n + f (suc n)

-- The bond of a candidate whose dispute is open.
abbrev pub open_bond : CandidateStatus → ℕ → ℕ
open_bond proposed n = n
open_bond challenged n = n
open_bond finalized n = 0
open_bond voided n = 0

-- `tok` gives the collateral token of each market.
module _ (tok : ℕ → Address) (t : Address) where
  -- The bonds in the token `t` that are locked for one candidate, and for the whole docket.
  abbrev pub owed_of : Option ResolutionCandidate → List ChallengeRecord → ℕ
  owed_of none rs = 0
  owed_of (some c) rs =
      in_token (tok c.market_id) t (open_bond c.status (pos_part c.bond_amount) + bond_sum rs)

  abbrev pub locked : Docket → ℕ
  locked d = sum_to (λ k. owed_of (d.candidate k) (d.challengers k)) d.counter

  -- The contract at `self` has been paid the locked bonds on top of all that it has paid out.
  abbrev pub IsSolvent : Address → World → Type 0
  IsSolvent self w = paid self t w.log + locked (docket w.storage) ≤ received self t w.log

-- What the theorems assume of the host in a call: the contract runs at its own address and never
-- signs for itself, and a market's collateral token does not change.
pub record IsHost (self : Address) (tok : ℕ → Address) (env : Env) : Type 0 where
  pub at_self : env.this ≡ self
  pub unsigned : env.authorized self ≡ false
  pub fixed_token :
      (config m token : ℕ) (w : World)
      → env.get_collateral_token w.log config m ≡ some token
      → token ≡ tok m
