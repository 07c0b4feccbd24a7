-- ===== src/Market/Custody/Settlement/Visits.antt =====
-- The settlements of a list of users, one after another, that the loops of a batch and of a page
-- amount to (contracts/market/src/settlement.rs).
use vatix_contract.Prelude.{
  ℕ, ℤ, pos, Option, none, some, List, [], ◌∷◌, ◌++◌, length, ltb, ok, ◌≡◌, ◌∙◌, subst, pure,
  >>=-eq-ok, ◌>>=◌, ◌>>◌, when, arith,
}
use vatix_contract.Market.Types.{Address, Market}
use vatix_contract.Market.Custody.Store.{MarketStore}
use vatix_contract.Market.Custody.World.{World, Env, M, publish, positions_batch_settled, now, emit}
use vatix_contract.Market.Custody.Settlement.{
  saturating_add, with_payout, settle_user, settle_each, settle_all,
}

-- The sum of the payouts, from a start on; a user who was passed over has none.
abbrev pub sum_from : ℤ → List (Option ℤ) → ℤ
sum_from n [] = n
sum_from n (none ∷ ps) = sum_from n ps
sum_from n (some p ∷ ps) = sum_from (saturating_add n p) ps

module _ {S : Type 0} (store : MarketStore S) (m : ℕ) where
  -- The users are settled one after another, each by the body of the loops, to the named payouts, and
  -- nothing else happens but that batches are announced.
  pub data Visits (market : Market)
      : World S → List Address → List (Option ℤ) → World S → Type 0 where
    done : (w : World S) → Visits market w [] [] w
    settle :
        (u : Address) (us : List Address) (paid : Option ℤ) (ps : List (Option ℤ)) (env : Env)
        (w w1 w' : World S)
        → settle_user store m market u env w ≡ ok (paid, w1)
        → Visits market w1 us ps w'
        → Visits market w (u ∷ us) (paid ∷ ps) w'
    announce :
        (us : List Address) (ps : List (Option ℤ)) (users : List Address) (payouts : List ℤ)
        (at : ℕ) (w w' : World S)
        → Visits market
            (record w { log = publish (positions_batch_settled m users payouts at) ∷ w.log })
            us
            ps
            w'
        → Visits market w us ps w'

  pub Visits-append :
      (market : Market) (us vs : List Address) (ps qs : List (Option ℤ)) (w w1 w' : World S)
      → Visits market w us ps w1
      → Visits market w1 vs qs w'
      → Visits market w (us ++ vs) (ps ++ qs) w'
  Visits-append market us vs ps qs w w1 w' (done _) b = b
  Visits-append market us vs ps qs w w1 w' (settle u us' paid ps' env _ w2 _ e a) b =
      settle u (us' ++ vs) paid (ps' ++ qs) env w w2 w' e
        (Visits-append market us' vs ps' qs w2 w1 w' a b)
  Visits-append market us vs ps qs w w1 w' (announce _ _ users payouts at _ _ a) b =
      announce (us ++ vs) (ps ++ qs) users payouts at w w'
        (Visits-append market us vs ps qs _ w1 w' a b)

  Visits-then :
      (market : Market) (us : List Address) (ps : List (Option ℤ)) (w w1 w' : World S)
      → Visits market w us ps w1
      → Visits market w1 [] [] w'
      → Visits market w us ps w'
  Visits-then market us ps w w1 w' (done _) b = b
  Visits-then market us ps w w1 w' (settle u us' paid ps' env _ w2 _ e a) b =
      settle u us' paid ps' env w w2 w' e (Visits-then market us' ps' w2 w1 w' a b)
  Visits-then market us ps w w1 w' (announce _ _ users payouts at _ _ a) b =
      announce us ps users payouts at w w' (Visits-then market us ps _ w1 w' a b)

  settle_each-Visits :
      (market : Market) (us : List Address) (users users' : List Address) (ns ns' : List ℤ)
      (n n' : ℤ) (env : Env) (w w' : World S)
      → settle_each store m market us (users, ns, n) env w ≡ ok ((users', ns', n'), w')
      → (ps : List (Option ℤ)) × (n' ≡ sum_from n ps) × Visits market w us ps w'
  unfolding settle_each
  settle_each-Visits market [] users users' ns ns' n n' env w w' h =
      let same : w ≡ w' = ground arith in
      ([], ground arith, subst (λ x. Visits market w [] [] x) same (done w))
  settle_each-Visits market (u ∷ us) users users' ns ns' n n' env w w' h =
      let (paid, w1, first, rest) =
        >>=-eq-ok (settle_user store m market u)
          (λ paid. settle_each store m market us (with_payout store u paid (users, ns, n))) env w
          (users', ns', n') w' h in
      next paid w1 first rest
        (λ (x : List Address) (y : List ℤ) (k : ℤ)
            (t : settle_each store m market us (x, y, k) env w1 ≡ ok ((users', ns', n'), w')).
          settle_each-Visits market us x users' y ns' k n' env w1 w' t)
    where
      next :
          (paid : Option ℤ) (w1 : World S)
          → settle_user store m market u env w ≡ ok (paid, w1)
          → settle_each store m market us (with_payout store u paid (users, ns, n)) env w1
            ≡ ok ((users', ns', n'), w')
          → ((x : List Address) (y : List ℤ) (k : ℤ)
              → settle_each store m market us (x, y, k) env w1 ≡ ok ((users', ns', n'), w')
              → (ps : List (Option ℤ)) × (n' ≡ sum_from k ps) × Visits market w1 us ps w')
          → (ps : List (Option ℤ)) × (n' ≡ sum_from n ps) × Visits market w (u ∷ us) ps w'
      next none w1 first rest later =
          let (ps, total, visits) = later users ns n rest in
          (none ∷ ps, total, settle u us none ps env w w1 w' first visits)
      next (some p) w1 first rest later =
          let (ps, total, visits) =
            later (users ++ u ∷ []) (ns ++ p ∷ []) (saturating_add n p) rest in
          (some p ∷ ps, total, settle u us (some p) ps env w w1 w' first visits)

  pub settle_all-Visits :
      (market : Market) (us : List Address) (payout : ℤ) (env : Env) (w w' : World S)
      → settle_all store m market us env w ≡ ok (payout, w')
      → (ps : List (Option ℤ)) × (payout ≡ sum_from (pos 0) ps) × Visits market w us ps w'
  settle_all-Visits market us payout env w w' h =
      let ((users, payouts, total), w1, first, rest) =
        >>=-eq-ok (settle_each store m market us ([], [], pos 0)) finish env w payout w' h in
      let (ps, sum, visits) =
        settle_each-Visits market us [] users [] payouts (pos 0) total env w w1 first in
      let (same, said) = announced users payouts total w1 rest in
      (ps, same ∙ sum, Visits-then market us ps w w1 w' visits said)
    where
      finish : List Address × List ℤ × ℤ → M S ℤ
      finish (users, payouts, total) = do
        at ← now
        when (ltb 0 (length users)) (emit (positions_batch_settled m users payouts at))
        pure total

      announced :
          (users : List Address) (payouts : List ℤ) (total : ℤ) (w1 : World S)
          → finish (users, payouts, total) env w1 ≡ ok (payout, w')
          → (payout ≡ total) × Visits market w1 [] [] w'
      announced [] payouts total w1 r =
          let same : w1 ≡ w' = ground arith in
          (ground arith, subst (λ x. Visits market w1 [] [] x) same (done w1))
      announced (u ∷ users) payouts total w1 r =
          let said : World S = record w1 {
            log = publish (positions_batch_settled m (u ∷ users) payouts env.timestamp) ∷ w1.log;
          } in
          let same : said ≡ w' = ground arith in
          (
            ground arith,
            announce [] [] (u ∷ users) payouts env.timestamp w1 w'
                (subst (λ x. Visits market said [] [] x) same (done said)),
          )
