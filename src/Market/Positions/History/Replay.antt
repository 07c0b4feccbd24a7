-- ===== src/Market/Positions/History/Replay.antt =====
-- The request identifiers that transfers and merges use up (`consume_request_id` of
-- contracts/market/src/positions.rs).
use vatix_contract.Prelude.{
  ℕ, ℤ, ◌+ℤ◌, ◌==◌, ◌||◌, Bool, true, Option-cases, inl, inr, List, [], ◌∷◌, ⊤, Outcome, ok, err,
  trap, ◌≡◌, ◌∙◌, refl, if◌then◌else◌, arith,
}
use vatix_contract.Market.Types.{Address, Position}
use vatix_contract.Market.Validation.{Result, done, fail, validate_market_price}
use vatix_contract.Market.Positions.{
  PositionStore, IsPositionStore, PositionError, Ledger, stored, duplicate_request, unauthorized,
  invalid_market_price, calculate_locked_collateral, transfer_position, merge_positions,
}
use vatix_contract.Market.Positions.Writes.{stored-consumed}
use vatix_contract.Market.Positions.Transfer.{transfer_position-Transferred}
use vatix_contract.Market.Positions.Merge.{emptied}
use vatix_contract.Market.Positions.History.{
  Request, transfer, merge, owner_of, id_of, caller_of, price_of, exec, commit, run,
}

-- Why a request under a used identifier is refused, by the check of its price and the right to call.
abbrev pub refusal : Result ⊤ → Bool → PositionError
refusal (fail e) allowed = invalid_market_price
refusal (done u) allowed = if allowed then duplicate_request else unauthorized

module _ {S : Type 0} (store : PositionStore S) where
  -- A call that returns has marked its identifier and then written two positions.
  record Written (u : Address) (id : ℕ) (w w' : Ledger S) : Type 0 where
    market : ℕ
    one : Address
    other : Address
    p : Position
    q : Position
    written :
        w'.state
        ≡ stored store
            (stored store (store.mark_request_consumed w.state u id) market one p)
            market
            other
            q

  merge_positions-Written :
      (m : ℕ) (owner primary other caller : Address) (price : ℤ) (id : ℕ) (w w' : Ledger S)
      → merge_positions store m owner primary other caller price id tt w ≡ ok (tt, w')
      → Written owner id w w'
  unfolding merge_positions
  merge_positions-Written m owner primary other caller price id w w' h =
      let s = store.mark_request_consumed w.state owner id in
      elim (Option-cases (store.get_position s m primary)) [
        | inl absent ↦ absurd (ground (arith))
        | inr (p, found) ↦ elim (Option-cases (store.get_position s m other)) [
          | inl absent ↦ absurd (ground (arith, found))
          | inr (q, there) ↦
              elim (Option-cases (
                calculate_locked_collateral (p.yes_shares +ℤ q.yes_shares)
                  (p.no_shares +ℤ q.no_shares) price)) [
                    | inl panics ↦ absurd (ground (arith, found, there))
                    | inr (locked, lock) ↦ record {
                      market = m;
                      one = primary;
                      other = other;
                      p = record p {
                        yes_shares = p.yes_shares +ℤ q.yes_shares;
                        no_shares = p.no_shares +ℤ q.no_shares;
                        total_deposited = p.total_deposited +ℤ q.total_deposited;
                        locked_collateral = locked;
                      };
                      q = emptied q;
                      written = ground (arith, found, there);
                    }
                  ]
        ]
      ]

  exec-Written :
      (q : Request) (w w' : Ledger S)
      → exec store q tt w ≡ ok (tt, w')
      → Written (owner_of q) (id_of q) w w'
  unfolding exec
  exec-Written (transfer m from to caller y n price id) w w' h =
      let t = transfer_position-Transferred store m from to caller y n price id w w' h in
      record { market = m; one = from; other = to; p = _; q = _; written = t.written }
  exec-Written (merge m owner primary other caller price id) w w' h =
      merge_positions-Written m owner primary other caller price id w w' h

  module _ (laws : IsPositionStore store) where
    Written-consumed :
        (u v : Address) (id k : ℕ) (w w' : Ledger S) (t : Written u id w w')
        → store.is_request_consumed w'.state v k
          ≡ store.is_request_consumed (store.mark_request_consumed w.state u id) v k
    Written-consumed u v id k w w' t =
        let s = store.mark_request_consumed w.state u id in
        let s1 = stored store s t.market t.one t.p in
        let first = stored-consumed store laws s t.market t.one v t.p k in
        let second = stored-consumed store laws s1 t.market t.other v t.q k in
        let last = t.written in cc

    commit-consumed :
        (q : Request) (w : Ledger S) (v : Address) (k : ℕ)
        → store.is_request_consumed w.state v k ≡ true
        → store.is_request_consumed (commit store w (exec store q tt w)).state v k ≡ true
    commit-consumed q w v k used = go (exec store q tt w) refl
      where
        go :
            (r : Outcome PositionError (⊤ × Ledger S))
            → exec store q tt w ≡ r
            → store.is_request_consumed (commit store w r).state v k ≡ true
        go (ok (tt, w')) e =
            Written-consumed (owner_of q) v (id_of q) k w w' (exec-Written q w w' e)
            ∙ laws.mark_kept w.state (owner_of q) v (id_of q) k used
        go (err x) e = used
        go trap e = used

    run-consumed :
        (qs : List Request) (w : Ledger S) (v : Address) (k : ℕ)
        → store.is_request_consumed w.state v k ≡ true
        → store.is_request_consumed (run store qs w).state v k ≡ true
    unfolding run
    run-consumed [] w v k used = used
    run-consumed (q ∷ qs) w v k used =
        run-consumed qs (commit store w (exec store q tt w)) v k (commit-consumed q w v k used)

    exec-consumed :
        (q : Request) (w : Ledger S)
        → store.is_request_consumed w.state (owner_of q) (id_of q) ≡ true
        → exec store q tt w
          ≡ err (
              refusal
                (validate_market_price (price_of q))
                (caller_of q == owner_of q || store.is_operator w.state (owner_of q) (caller_of q)))
    unfolding exec transfer_position merge_positions
    exec-consumed (transfer m from to caller y n price id) w used =
        go (validate_market_price price) refl
      where
        go :
            (r : Result ⊤)
            → validate_market_price price ≡ r
            → transfer_position store m from to caller y n price id tt w
              ≡ err (refusal r (caller == from || store.is_operator w.state from caller))
        go (done u) e = ground (arith, e, used)
        go (fail x) e = ground (arith, e, used)
    exec-consumed (merge m owner primary other caller price id) w used =
        go (validate_market_price price) refl
      where
        go :
            (r : Result ⊤)
            → validate_market_price price ≡ r
            → merge_positions store m owner primary other caller price id tt w
              ≡ err (refusal r (caller == owner || store.is_operator w.state owner caller))
        go (done u) e = ground (arith, e, used)
        go (fail x) e = ground (arith, e, used)

    -- A request identifier that a transfer or a merge has used is refused for good: after the return of
    -- one and any later history of transfers and merges, by anyone, every transfer and every merge of
    -- the same owner under the same identifier is answered with an error, whatever its market, users
    -- and shares. The error is DuplicateRequest for the owner and the owner's operators at a valid
    -- price, Unauthorized for anyone else at a valid price, and InvalidMarketPrice otherwise. Writes of
    -- positions may fail.
    pub exec-replay :
        (q : Request) (w w' : Ledger S) (qs : List Request) (again : Request)
        → exec store q tt w ≡ ok (tt, w')
        → owner_of again ≡ owner_of q
        → id_of again ≡ id_of q
        → exec store again tt (run store qs w')
          ≡ err (
              refusal (validate_market_price (price_of again)) (
                caller_of again == owner_of again
                || store.is_operator (run store qs w').state (owner_of again) (caller_of again)))
    exec-replay q w w' qs again h same_owner same_id =
        let marked =
          Written-consumed (owner_of q) (owner_of q) (id_of q) (id_of q) w w'
            (exec-Written q w w' h)
          ∙ laws.mark_consumed w.state (owner_of q) (id_of q) in
        let used = run-consumed qs w' (owner_of q) (id_of q) marked in
        let used' : store.is_request_consumed (run store qs w').state (owner_of again) (id_of again)
            ≡ true =
          cc in
        exec-consumed again (run store qs w') used'
