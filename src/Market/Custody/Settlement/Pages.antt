-- ===== src/Market/Custody/Settlement/Pages.antt =====
-- The page that a call of `settle_positions_page` settles (contracts/market/src/settlement.rs).
use vatix_contract.Prelude.{
  ℕ, ◌+◌, ◌-◌, ◌^◌, ◌≤◌, ◌<◌, ℤ, pos, Bool, true, Bool-cases, ◌⊎◌, inl, inr, List, [], ◌∷◌, ◌++◌,
  length, leb, ok, err, trap, Outcome, Option, some, none, ◌≡◌, refl, ap, sym, subst, pure,
  >>=-eq-ok, ◌>>=◌, arith,
}
use vatix_contract.Market.Types.{Address, Market}
use vatix_contract.Market.Custody.Store.{Failure, MarketStore}
use vatix_contract.Market.Custody.World.{World, Env, M}
use vatix_contract.Market.Custody.Settlement.{
  take, drop, page_end, is_resolved, settle_all, settle_positions_page,
}
use vatix_contract.Market.Custody.Settlement.Slices.{Slice, slice}
use vatix_contract.Market.Custody.Settlement.Visits.{sum_from, Visits, done, settle_all-Visits}

pub length-nil : (xs : List Address) → length xs ≡ 0 → xs ≡ []
length-nil [] h = refl
length-nil (x ∷ xs) h = absurd (omega arith)

page_end-bounds :
    (start limit total : ℕ)
    → start ≤ total
    → total < 2 ^ 32
    → (start ≤ page_end start limit total)
      × (page_end start limit total ≤ total)
      × (page_end start limit total ≤ start + limit)
      × ((page_end start limit total ≡ start + limit) ⊎ (page_end start limit total ≡ total))
page_end-bounds start limit total h k = (ground arith, ground arith, ground arith, ground arith)

module _ {S : Type 0} (store : MarketStore S) (m : ℕ) where
  -- What a call that starts at an index has settled, and what it answers.
  pub record Page (start limit : ℕ) (payout : ℤ) (next : ℕ) (complete : Bool) (w w' : World S)
      : Type 0 where
    pub market : Market
    pub listed : store.get_market w.state m ≡ ok (some market)
    pub resolved : is_resolved market.status ≡ true
    pub before : List Address
    pub page : List Address
    pub after : List Address
    pub parts : store.get_market_participants w.state m ≡ before ++ (page ++ after)
    pub begins : length before ≡ start
    pub ends : next ≡ start + length page
    pub size : length page ≤ limit
    pub full : (length page ≡ limit) ⊎ (after ≡ [])
    pub completed : complete ≡ true → after ≡ []
    pub completes : after ≡ [] → complete ≡ true
    pub payouts : List (Option ℤ)
    pub sum : payout ≡ sum_from (pos 0) payouts
    pub visits : Visits store m market w page payouts w'

  paged :
      (start limit next end : ℕ) (payout : ℤ) (complete : Bool) (w w' : World S) (market : Market)
      (sl : Slice (store.get_market_participants w.state m) start end) (ps : List (Option ℤ))
      → store.get_market w.state m ≡ ok (some market)
      → is_resolved market.status ≡ true
      → start ≤ end
      → end ≤ length (store.get_market_participants w.state m)
      → end ≤ start + limit
      → (end ≡ start + limit) ⊎ (end ≡ length (store.get_market_participants w.state m))
      → next ≡ end
      → complete ≡ leb (length (store.get_market_participants w.state m)) end
      → payout ≡ sum_from (pos 0) ps
      → Visits store m market w sl.page ps w'
      → Page start limit payout next complete w w'
  paged start limit next end payout complete w w' market sl ps listed resolved low high room full ne
        ce sum visits =
      let size = sl.ends in
      let left = sl.rest in
      record {
        market = market;
        listed = listed;
        resolved = resolved;
        before = sl.before;
        page = sl.page;
        after = sl.after;
        parts = sl.parts;
        begins = sl.begins;
        ends = omega (arith, size, ne);
        size = omega (arith, size);
        full = elim full [
          | inl limited ↦ inl (omega (arith, size))
          | inr whole ↦ inr (length-nil sl.after (omega (arith, left)))
        ];
        completed = λ c. length-nil sl.after (ground (arith, left, ce, c));
        completes = λ a.
            let none_left : length sl.after ≡ 0 = ap length a in
            ground (arith, left, ce, none_left);
        payouts = ps;
        sum = sum;
        visits = visits;
      }

  pub settle_positions_page-Page :
      (start limit next : ℕ) (payout : ℤ) (complete : Bool) (env : Env) (w w' : World S)
      → start ≤ length (store.get_market_participants w.state m)
      → length (store.get_market_participants w.state m) < 2 ^ 32
      → settle_positions_page store m start limit env w ≡ ok ((payout, next, complete), w')
      → Page start limit payout next complete w w'
  unfolding settle_positions_page
  settle_positions_page-Page start limit next payout complete env w w' within small h =
      go (store.get_market w.state m) refl
    where
      xs : List Address
      xs = store.get_market_participants w.state m

      go :
          (r : Outcome Failure (Option Market))
          → store.get_market w.state m ≡ r
          → Page start limit payout next complete w w'
      go (ok none) e = absurd (ground (arith, e))
      go (err x) e = absurd (ground (arith, e))
      go trap e = absurd (ground (arith, e))
      go (ok (some k)) e = elim (Bool-cases (leb (length xs) start)) [
        | inl past ↦
            let same : length xs ≡ start = ground arith in
            let sl = slice xs start start (omega arith) (omega arith) in
            let empty : [] ≡ sl.page = sym (length-nil sl.page (omega (arith, sl.ends))) in
            let stays : w ≡ w' = ground (arith, e, past) in
            paged start limit next start payout complete w w' k sl [] e (ground (arith, e, past))
              (omega arith) (omega arith) (omega arith) (inr (sym same)) (ground (arith, e, past))
              (ground (arith, e, past)) (ground (arith, e, past))
              (subst (λ us. Visits store m k w us [] w') empty
                (subst (λ v. Visits store m k w [] [] v) stays (done w)))
        | inr before ↦
            let end = page_end start limit (length xs) in
            let page = settle_all store m k (take (end - start) (drop start xs)) in
            let finish : ℤ → M S (ℤ × ℕ × Bool) = λ n. pure (n, end, leb (length xs) end) in
            let tail : (page >>= finish) env w ≡ ok ((payout, next, complete), w') =
              ground (arith, e, before) in
            let (n, w1, first, last) =
              >>=-eq-ok page finish env w (payout, next, complete) w' tail in
            let (low, high, room, full) = page_end-bounds start limit (length xs) within small in
            let sl = slice xs start end low high in
            let (ps, sum, visits) =
              settle_all-Visits store m k (take (end - start) (drop start xs)) n env w w1 first in
            let stays : w1 ≡ w' = ground (arith, last) in
            paged start limit next end payout complete w w' k sl ps e (ground (arith, e, before))
              low high room full (ground (arith, last)) (ground (arith, last))
              (ground (arith, last, sum))
              (subst (λ us. Visits store m k w us ps w') (sym sl.is)
                (subst (λ v. Visits store m k w (take (end - start) (drop start xs)) ps v) stays
                  visits))
      ]
