-- ===== src/Resolution/Solvency/Flows.antt =====
-- The money that each move of the docket goes with: a bond that is locked was taken in, and what is
-- paid out at the end of a dispute was locked (contracts/resolution/src/lib.rs).
use mathlib.Core.Path.{ap₂}
use vatix_contract.Prelude.{ℕ, suc, ◌+◌, pos_part, some, List, [], ◌∷◌, ◌++◌, ◌≡◌, ap, arith}
use vatix_contract.Resolution.Types.{Address, ChallengeRecord, ResolutionCandidate}
use vatix_contract.Resolution.World.{Env, World}
use vatix_contract.Resolution.Money.{received, paid, bond_sum}
use vatix_contract.Resolution.Lifecycle.{Docket, docket, Keeps, file, set_challengers}
use vatix_contract.Resolution.Lifecycle.Invariant.{Inv, file-same, unused_id}
use vatix_contract.Resolution.Lifecycle.Filing.{Opened}
use vatix_contract.Resolution.Lifecycle.Contesting.{Contested, Appealed}
use vatix_contract.Resolution.Solvency.{sum_to, owed_of, locked, IsSolvent, IsHost}
use vatix_contract.Resolution.Solvency.Sums.{sum_to-same, sum_to-change}

bond_sum-append :
    (rs : List ChallengeRecord) (r : ChallengeRecord)
    → bond_sum (rs ++ r ∷ []) ≡ bond_sum rs + pos_part r.bond
bond_sum-append [] r = omega arith
bond_sum-append (x ∷ rs) r = omega (arith, bond_sum-append rs r)

module _ (tok : ℕ → Address) (t : Address) where
  -- The locked bonds when the candidate `k` and its challengers are written anew.
  pub locked-refile :
      (d : Docket) (k : ℕ) (c c' : ResolutionCandidate) (rs : List ChallengeRecord)
      → Inv d
      → d.candidate k ≡ some c
      → Keeps c c'
      → locked tok t (set_challengers k rs (file c' d)) + owed_of tok t (some c) (d.challengers k)
        ≡ locked tok t d + owed_of tok t (some c') rs
  locked-refile d k c c' rs inv stored keep =
      let d' = set_challengers k rs (file c' d) in
      let f : ℕ → ℕ = λ j. owed_of tok t (d.candidate j) (d.challengers j) in
      let g : ℕ → ℕ = λ j. owed_of tok t (d'.candidate j) (d'.challengers j) in
      let (own, positive, bounded, market) = inv.counted k c stored in
      let change = sum_to-change f g k d.counter positive bounded (λ j ne. ground (arith)) in
      let old : f k ≡ owed_of tok t (some c) (d.challengers k) =
        ap (λ o. owed_of tok t o (d.challengers k)) stored in
      let written : d'.candidate k ≡ some c' = ground arith in
      let cleared : d'.challengers k ≡ rs = ground arith in
      let new : g k ≡ owed_of tok t (some c') rs = ap₂ (owed_of tok t) written cleared in
      omega (arith, change, old, new)

  -- The locked bonds when a candidate is opened.
  locked-open :
      (d : Docket) (c : ResolutionCandidate)
      → Inv d
      → c.id ≡ d.counter + 1
      → locked tok t (record (file c d) { counter = c.id })
        ≡ locked tok t d + owed_of tok t (some c) []
  locked-open d c inv next =
      let d' : Docket = record (file c d) { counter = c.id } in
      let f : ℕ → ℕ = λ j. owed_of tok t (d.candidate j) (d.challengers j) in
      let g : ℕ → ℕ = λ j. owed_of tok t (d'.candidate j) (d'.challengers j) in
      let id : c.id ≡ suc d.counter = omega (arith, next) in
      let same = sum_to-same f g d.counter (λ j le. ground arith) in
      let empty = inv.unused c.id (unused_id d inv c next) in
      let written : d'.candidate c.id ≡ some c = ground arith in
      let last : g c.id ≡ owed_of tok t (some c) [] = ap₂ (owed_of tok t) written empty in
      let split : sum_to g c.id ≡ sum_to g d.counter + g (suc d.counter) = ap (sum_to g) id in
      omega (arith, same, last, split, ap g id)

  -- A filing, a challenge and an appeal keep the contract solvent.
  module _ (self : Address) (env : Env) (host : IsHost self tok env) (w w' : World) where
    pub Opened-IsSolvent :
        (c : ResolutionCandidate) (token : Address)
        → Inv (docket w.storage)
        → Opened env w w' c token
        → IsSolvent tok t self w
        → IsSolvent tok t self w'
    Opened-IsSolvent c token inv o h =
        let money = locked-open (docket w.storage) c inv o.next in
        let books = ap (locked tok t) o.docket' in
        let p = ap (paid self t) o.log'.1 in
        let r = ap (received self t) o.log'.1 in
        let named = host.fixed_token o.config.market_contract c.market_id token w o.asked in
        ground (arith, host.at_self, host.unsigned, o.signed, o.filing)

    pub Contested-IsSolvent :
        (k : ℕ) (c c' : ResolutionCandidate) (r : ChallengeRecord) (token : Address)
        → Inv (docket w.storage)
        → Contested env w w' k c c' r token
        → IsSolvent tok t self w
        → IsSolvent tok t self w'
    Contested-IsSolvent k c c' r token inv o h =
        let rs = (docket w.storage).challengers k in
        let money =
          locked-refile (docket w.storage) k c c' (rs ++ r ∷ []) inv o.stored o.contest.keeps in
        let books = ap (locked tok t) o.docket' in
        let p = ap (paid self t) o.log'.1 in
        let r' = ap (received self t) o.log'.1 in
        let named = host.fixed_token o.config.market_contract c.market_id token w o.asked in
        ground (arith, host.at_self, host.unsigned, o.signed, o.contest, bond_sum-append rs r)

    pub Appealed-IsSolvent :
        (k : ℕ) (c c' : ResolutionCandidate)
        → Inv (docket w.storage)
        → Appealed env w w' k c c'
        → IsSolvent tok t self w
        → IsSolvent tok t self w'
    Appealed-IsSolvent k c c' inv o h =
        let money =
          locked-refile (docket w.storage) k c c' ((docket w.storage).challengers k) inv o.stored
            o.appeal.keeps in
        let books = ap (locked tok t) o.docket' in
        let same = ap (locked tok t) (file-same (docket w.storage) k c') in
        let p = ap (paid self t) o.log'.1 in
        let r = ap (received self t) o.log'.1 in ground (arith, o.appeal)
