-- ===== src/Resolution/Lifecycle/Invariant.antt =====
-- The invariant of the docket: identifiers, one candidate for each market, the rounds, and exactly
-- one challenger on record for each challenge that was made.
use mathlib.Core.Path.{fun_ext}
use vatix_contract.Prelude.{
  ℕ, ◌+◌, ◌≤◌, ◌<◌, ◌≤ℤ◌, ◌==◌, ==_iff, Bool-cases, Option-cases, none, some, inl, inr, List, [],
  ◌∷◌, ◌++◌, ◌≡◌, sym, ◌∙◌, subst, length, length-append, update, arith,
}
use vatix_contract.Resolution.Types.{
  CandidateStatus, proposed, challenged, finalized, voided, ChallengeRecord, ResolutionCandidate,
}
use vatix_contract.Resolution.Guards.{max_appeal_rounds, min_bond_amount, min_challenge_bond_amount}
use vatix_contract.Resolution.Lifecycle.{
  Docket, Keeps, IsFiling, file, set_challengers, Move, opens, contests, appeals, upholds, voids,
  stays,
}

-- How many challengers are on record: one for each round that was contested, none after the end.
abbrev pub on_record : CandidateStatus → ℕ → ℕ
on_record proposed round = round
on_record challenged round = round + 1
on_record finalized round = 0
on_record voided round = 0

abbrev pub AllBonded : List ChallengeRecord → Type 0
AllBonded [] = Unit
AllBonded (r ∷ rs) = (min_challenge_bond_amount ≤ℤ r.bond) × AllBonded rs

pub record IsSound (c : ResolutionCandidate) (rs : List ChallengeRecord) : Type 0 where
  pub rounds : c.appeal_round ≤ max_appeal_rounds
  pub bonded : min_bond_amount ≤ℤ c.bond_amount
  pub recorded : length rs ≡ on_record c.status c.appeal_round
  pub challengers_bonded : AllBonded rs

pub record Inv (d : Docket) : Type 0 where
  pub counted :
      (k : ℕ) (c : ResolutionCandidate)
      → d.candidate k ≡ some c
      → (c.id ≡ k) × (0 < k) × (k ≤ d.counter) × (d.by_market c.market_id ≡ some k)
  pub indexed :
      (m k : ℕ)
      → d.by_market m ≡ some k
      → (c : ResolutionCandidate) × (d.candidate k ≡ some c) × (c.market_id ≡ m)
  pub sound :
      (k : ℕ) (c : ResolutionCandidate) → d.candidate k ≡ some c → IsSound c (d.challengers k)
  pub unused : (k : ℕ) → d.candidate k ≡ none → d.challengers k ≡ []

AllBonded-append :
    (rs : List ChallengeRecord) (r : ChallengeRecord)
    → AllBonded rs
    → min_challenge_bond_amount ≤ℤ r.bond
    → AllBonded (rs ++ r ∷ [])
AllBonded-append [] r h b = (b, tt)
AllBonded-append (x ∷ rs) r h b = (h.0, AllBonded-append rs r h.1 b)

IsFiling-IsSound : (at : ℕ) (c : ResolutionCandidate) → IsFiling at c → IsSound c []
IsFiling-IsSound at c filing = ground arith

-- A write that leaves the challengers alone, as one that writes them back.
pub file-same :
    (d : Docket) (k : ℕ) (c : ResolutionCandidate)
    → file c d ≡ set_challengers k (d.challengers k) (file c d)
file-same d k c = λ i. record (file c d) {
  challengers =
      fun_ext {f = d.challengers} {g = update d.challengers k (d.challengers k)} (λ j. ground arith)
        i;
}

module _ (d : Docket) (inv : Inv d) where
  -- A candidate written over an old version of itself, with a new list of challengers.
  refile-Inv :
      (k : ℕ) (c c' : ResolutionCandidate) (rs : List ChallengeRecord)
      → d.candidate k ≡ some c
      → Keeps c c'
      → IsSound c' rs
      → Inv (set_challengers k rs (file c' d))
  refile-Inv k c c' rs e keep s = record {
    counted = λ j x h. ground (arith, inv.counted k c e, inv.counted j x);
    indexed = λ m j h. elim (Bool-cases (m == c'.market_id)) [
      | inl same ↦ (c', ground (arith, inv.counted k c e), ground arith)
      | inr other ↦
          let (x, stored, market) = inv.indexed m j (ground arith) in
          (x, ground (arith, inv.counted k c e, inv.counted j x stored), market)
    ];
    sound = λ j x h. elim (Bool-cases (j == k)) [
      | inl same ↦ rw same (subst (λ y. IsSound y rs) (ground (arith, inv.counted k c e)) s)
      | inr other ↦ rw other (inv.sound j x (ground (arith, inv.counted k c e)))
    ];
    unused = λ j h. ground (arith, inv.unused j, inv.counted k c e);
  }

  pub unused_id : (c : ResolutionCandidate) → c.id ≡ d.counter + 1 → d.candidate c.id ≡ none
  unused_id c next = elim (Option-cases (d.candidate c.id)) [
    | inl free ↦ free
    | inr (x, stored) ↦ absurd (omega (arith, (inv.counted c.id x stored).2))
  ]

  -- A new candidate under the next identifier, in a market that has none.
  file_new-Inv :
      (at : ℕ) (c : ResolutionCandidate)
      → IsFiling at c
      → d.by_market c.market_id ≡ none
      → c.id ≡ d.counter + 1
      → Inv (record (file c d) { counter = c.id })
  file_new-Inv at c filing free next = record {
    counted = λ j x h. ground (arith, inv.counted j x);
    indexed = λ m j h. elim (Bool-cases (m == c.market_id)) [
      | inl same ↦ (c, ground arith, ground arith)
      | inr other ↦
          let (x, stored, market) = inv.indexed m j (ground arith) in
          (x, ground (arith, inv.counted j x stored), market)
    ];
    sound = λ j x h. elim (Bool-cases (j == c.id)) [
      | inl same ↦
          let id : j ≡ c.id = (==_iff j c.id).0 same in
          let empty = inv.unused c.id (unused_id c next) in
          let this_one : c ≡ x = ground (arith, id) in
          rw (id, empty) (subst (λ y. IsSound y []) this_one (IsFiling-IsSound at c filing))
      | inr other ↦ inv.sound j x (ground arith)
    ];
    unused = λ j h. ground (arith, inv.unused j);
  }

  -- Every move keeps the invariant.
  pub Move-Inv : (at : ℕ) (d' : Docket) → Move at d d' → Inv d'
  Move-Inv at d' (opens c filing free next e) =
      subst Inv (sym e) (file_new-Inv at c filing free next)
  Move-Inv at d' (contests k c c' r stored contest e) = subst Inv (sym e) (
      refile-Inv k c c' (d.challengers k ++ r ∷ []) stored contest.keeps (
        ground (
          arith,
          inv.sound k c stored,
          length-append (d.challengers k) (r ∷ []),
          AllBonded-append (d.challengers k) r,
        )))
  Move-Inv at d' (appeals k c c' stored appeal e) = subst Inv (sym (e ∙ file-same d k c')) (
      refile-Inv k c c' (d.challengers k) stored appeal.keeps
        (ground (arith, inv.sound k c stored)))
  Move-Inv at d' (upholds k c c' stored way closing e) =
      subst Inv (sym e)
        (refile-Inv k c c' [] stored closing.keeps (ground (arith, inv.sound k c stored)))
  Move-Inv at d' (voids k c c' stored way closing e) =
      subst Inv (sym e)
        (refile-Inv k c c' [] stored closing.keeps (ground (arith, inv.sound k c stored)))
  Move-Inv at d' (stays e) = subst Inv (sym e) inv
