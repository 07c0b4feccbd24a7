-- ===== src/Market/Custody/Settlement/Rounds.antt =====
-- The calls of `settle_positions_page` that go through the participants of a market, as its comment
-- tells the caller to make them (contracts/market/src/settlement.rs).
use mathlib.Core.List.{append-nil, append_assoc}
use vatix_contract.Prelude.{
  ℕ, suc, ◌+◌, ◌*◌, ◌^◌, ◌≤◌, ◌<◌, ℤ, Bool, true, false, inl, inr, List, [], ◌++◌, length,
  length-append, ok, Option, some, ◌≡◌, ◌∙◌, refl, ap, sym, subst, arith,
}
use vatix_contract.Market.Types.{Address, Market, Position}
use vatix_contract.Market.Custody.Store.{MarketStore}
use vatix_contract.Market.Custody.World.{World, Env}
use vatix_contract.Market.Custody.Settlement.{settle_positions_page}
use vatix_contract.Market.Custody.Settlement.Slices.{append-cancel}
use vatix_contract.Market.Custody.Settlement.Visits.{Visits, Visits-append}
use vatix_contract.Market.Custody.Settlement.Pages.{length-nil, Page, settle_positions_page-Page}
use vatix_contract.Market.Custody.Settlement.Writes.{Visits-keeps}

module _ {S : Type 0} (store : MarketStore S) where
  -- Markets and their participants are keys of their own, which no write of a position changes.
  pub record KeepsRegister : Type 0 where
    pub participants :
        (s s' : S) (m k : ℕ) (u : Address) (p : Position)
        → store.set_position s m u p ≡ ok s'
        → store.get_market_participants s' k ≡ store.get_market_participants s k
    pub market :
        (s s' : S) (m k : ℕ) (u : Address) (p : Position)
        → store.set_position s m u p ≡ ok s'
        → store.get_market s' k ≡ store.get_market s k

module _ {S : Type 0} (store : MarketStore S) (m limit : ℕ) where
  -- Calls that return, each from the index that the one before has answered, which was not the last
  -- page: the first index, the calls before the last one, and what the last one answers.
  pub data Calls : ℕ → ℕ → ℕ → Bool → World S → World S → Type 0 where
    once :
        (start next : ℕ) (payout : ℤ) (complete : Bool) (env : Env) (w w' : World S)
        → settle_positions_page store m start limit env w ≡ ok ((payout, next, complete), w')
        → Calls start 0 next complete w w'
    again :
        (start more next n : ℕ) (payout : ℤ) (complete : Bool) (env : Env) (w w1 w' : World S)
        → settle_positions_page store m start limit env w ≡ ok ((payout, more, false), w1)
        → Calls more n next complete w1 w'
        → Calls start (suc n) next complete w w'

  -- What the calls have settled together.
  pub record Covered (start n next : ℕ) (complete : Bool) (w w' : World S) : Type 0 where
    pub market : Market
    pub listed : store.get_market w.state m ≡ ok (some market)
    pub before : List Address
    pub pages : List Address
    pub after : List Address
    pub parts : store.get_market_participants w.state m ≡ before ++ (pages ++ after)
    pub begins : length before ≡ start
    pub ends : next ≡ start + length pages
    pub completed : complete ≡ true → after ≡ []
    pub completes : after ≡ [] → complete ≡ true
    pub some_calls : n * limit ≤ length pages
    pub few_calls : length pages ≤ suc n * limit
    pub payouts : List (Option ℤ)
    pub visits : Visits store m market w pages payouts w'

  once-Covered :
      (start next : ℕ) (payout : ℤ) (complete : Bool) (w w' : World S)
      → Page store m start limit payout next complete w w'
      → Covered start 0 next complete w w'
  once-Covered start next payout complete w w' page = record {
    market = page.market;
    listed = page.listed;
    before = page.before;
    pages = page.page;
    after = page.after;
    parts = page.parts;
    begins = page.begins;
    ends = page.ends;
    completed = page.completed;
    completes = page.completes;
    some_calls = omega arith;
    few_calls = omega (arith, page.size);
    payouts = page.payouts;
    visits = page.visits;
  }

  again-Covered :
      (start more next n : ℕ) (payout : ℤ) (complete : Bool) (w w1 w' : World S)
      (page : Page store m start limit payout more false w w1)
      → store.get_market_participants w1.state m ≡ store.get_market_participants w.state m
      → store.get_market w1.state m ≡ store.get_market w.state m
      → Covered more n next complete w1 w'
      → Covered start (suc n) next complete w w'
  again-Covered start more next n payout complete w w1 w' page same stays rest =
      let begins = page.begins in
      let moved = page.ends in
      let begins' = rest.begins in
      let there = page.parts in
      let there' = rest.parts in
      let front : length (page.before ++ page.page) ≡ length rest.before =
        omega (arith, length-append page.before page.page, begins, moved, begins') in
      let joined : (page.before ++ page.page) ++ page.after
          ≡ rest.before ++ (rest.pages ++ rest.after) =
        append_assoc page.before page.page page.after ∙ sym there ∙ sym same ∙ there' in
      let left : page.after ≡ rest.pages ++ rest.after =
        append-cancel (page.before ++ page.page) rest.before page.after (rest.pages ++ rest.after)
          joined front in
      let whole : length page.page ≡ limit = elim page.full [
        | inl e ↦ e
        | inr nothing ↦ let shut : false ≡ true = page.completes nothing in absurd (cc)
      ] in
      let one : rest.market ≡ page.market = let a = page.listed in let b = rest.listed in cc in
      record {
        market = page.market;
        listed = page.listed;
        before = page.before;
        pages = page.page ++ rest.pages;
        after = rest.after;
        parts =
            there
            ∙ ap (λ l. page.before ++ l)
                (ap (λ l. page.page ++ l) left
                  ∙ sym (append_assoc page.page rest.pages rest.after));
        begins = begins;
        ends = omega (arith, length-append page.page rest.pages, moved, rest.ends);
        completed = rest.completed;
        completes = rest.completes;
        some_calls = omega (arith, length-append page.page rest.pages, rest.some_calls, whole);
        few_calls = omega (arith, length-append page.page rest.pages, rest.few_calls, whole);
        payouts = page.payouts ++ rest.payouts;
        visits =
            Visits-append store m page.market page.page rest.pages page.payouts rest.payouts w w1 w'
              page.visits
              (subst (λ k. Visits store m k w1 rest.pages rest.payouts w') one rest.visits);
      }

  Calls-Covered :
      (laws : KeepsRegister store) (start n next : ℕ) (complete : Bool) (w w' : World S)
      → start ≤ length (store.get_market_participants w.state m)
      → length (store.get_market_participants w.state m) < 2 ^ 32
      → Calls start n next complete w w'
      → Covered start n next complete w w'
  Calls-Covered laws start n next complete w w' within small (once _ _ payout _ env _ _ e) =
      once-Covered start next payout complete w w' (
        settle_positions_page-Page store m start limit next payout complete env w w' within small e)
  Calls-Covered laws start _ next complete w w' within small
        (again _ more _ n payout _ env _ w1 _ e rest) =
      let page =
        settle_positions_page-Page store m start limit more payout false env w w1 within small e in
      let same =
        Visits-keeps store m
          (λ s. store.get_market_participants s m ≡ store.get_market_participants w.state m)
          (λ s s' k u p f h. laws.participants s s' k m u p f ∙ h) page.market page.page
          page.payouts w w1 page.visits refl in
      let stays =
        Visits-keeps store m (λ s. store.get_market s m ≡ store.get_market w.state m)
          (λ s s' k u p f h. laws.market s s' k m u p f ∙ h) page.market page.page page.payouts w w1
          page.visits refl in
      let total = ap length page.parts in
      let two = length-append page.before (page.page ++ page.after) in
      let three = length-append page.page page.after in
      let size = ap length same in
      again-Covered start more next n payout complete w w1 w' page same stays (
        Calls-Covered laws more n next complete w1 w'
          (omega (arith, total, two, three, size, page.ends, page.begins)) (omega (arith, size))
          rest)

  -- Calls of settle_positions_page from index 0 on, each from the index that the one before answered,
  -- until one says that it was the last page, settle every participant of the market exactly once and
  -- in order, each by the body of the loops, and do nothing else but announce batches. The last
  -- answer is the number of participants, and the calls are as many as pages of this limit take:
  -- those before the last one fit into the participants, and all of them cover the participants.
  -- Participants are fewer than 2^32, and a write of a position changes neither them nor the market.
  pub settle_positions_page-covers :
      (laws : KeepsRegister store) (n next : ℕ) (w w' : World S)
      → length (store.get_market_participants w.state m) < 2 ^ 32
      → Calls 0 n next true w w'
      → (market : Market) × (payouts : List (Option ℤ)) × (store.get_market w.state m
          ≡ ok (some market))
        × Visits store m market w (store.get_market_participants w.state m) payouts w'
        × (next ≡ length (store.get_market_participants w.state m))
        × (n * limit ≤ length (store.get_market_participants w.state m))
        × (length (store.get_market_participants w.state m) ≤ suc n * limit)
  settle_positions_page-covers laws n next w w' small calls =
      let c = Calls-Covered laws 0 n next true w w' (omega arith) small calls in
      let nothing : c.before ≡ [] = length-nil c.before c.begins in
      let last : c.after ≡ [] = c.completed refl in
      let whole : c.pages ≡ store.get_market_participants w.state m = sym (
        c.parts
        ∙ ap (λ b. b ++ (c.pages ++ c.after)) nothing
        ∙ ap (λ a. c.pages ++ a) last
        ∙ append-nil c.pages) in
      let size = ap length whole in
      (
        c.market,
        c.payouts,
        c.listed,
        subst (λ us. Visits store m c.market w us c.payouts w') whole c.visits,
        omega (arith, c.ends, size),
        omega (arith, c.some_calls, size),
        omega (arith, c.few_calls, size),
      )
