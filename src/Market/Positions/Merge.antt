-- ===== src/Market/Positions/Merge.antt =====
-- What a merge does to the two positions (`merge_positions` of contracts/market/src/positions.rs).
use vatix_contract.Prelude.{
  ◌==◌, ◌∷◌, ℕ, ℤ, pos, ◌+ℤ◌, false, some, Option-cases, inl, inr, ◌≡◌, ◌≢◌, ok, checked_add, true,
  arith,
}
use vatix_contract.Market.Types.{Address, Position}
use vatix_contract.Market.Validation.{done, validate_market_price}
use vatix_contract.Market.Positions.Writes.{stored-same, stored-other}
use vatix_contract.Market.Positions.{
  stored, PositionStore, KeepsWrites, Ledger, calculate_locked_collateral, merge_positions,
}

-- A position whose shares and deposits are taken away.
abbrev pub emptied : Position → Position
emptied p = record p {
  yes_shares = pos 0;
  no_shares = pos 0;
  locked_collateral = pos 0;
  total_deposited = pos 0;
}

eq_self : (a : ℕ) → (a == a) ≡ true
eq_self a = ground arith

module _ {S : Type 0} (store : PositionStore S) (laws : KeepsWrites store) where
  -- Over a storage whose writes succeed and are read back, whoever calls merge_positions as the owner
  -- of the request, with a fresh request identifier and a valid price, takes over the position of any
  -- other user in the market: the call returns, the other's shares and deposits are added to the
  -- caller's position, and the other's position is emptied; both positions exist and are not settled,
  -- and the sums and the new lock are i128.
  pub merge_positions-takes :
      (m : ℕ) (u v : Address) (price : ℤ) (id : ℕ) (p q : Position)
      (yes_sum no_sum total locked : ℤ) (w : Ledger S)
      → u ≢ v
      → validate_market_price price ≡ done tt
      → store.is_request_consumed w.state u id ≡ false
      → store.get_position w.state m u ≡ some p
      → store.get_position w.state m v ≡ some q
      → p.is_settled ≡ false
      → q.is_settled ≡ false
      → checked_add p.yes_shares q.yes_shares ≡ some yes_sum
      → checked_add p.no_shares q.no_shares ≡ some no_sum
      → checked_add p.total_deposited q.total_deposited ≡ some total
      → calculate_locked_collateral yes_sum no_sum price ≡ some locked
      → (w' : Ledger S) × (merge_positions store m u u v u price id tt w ≡ ok (tt, w'))
        × (store.get_position w'.state m u
            ≡ some (record p {
              yes_shares = yes_sum;
              no_shares = no_sum;
              total_deposited = total;
              locked_collateral = locked;
            }))
        × (store.get_position w'.state m v ≡ some (emptied q))
  unfolding merge_positions
  merge_positions-takes m u v price id p q yes_sum no_sum total locked w distinct valid unused one
        two open1 open2 yes_fits no_fits sum_fits lock =
      let s = store.mark_request_consumed w.state u id in
      let merged : Position = record p {
        yes_shares = yes_sum;
        no_shares = no_sum;
        total_deposited = total;
        locked_collateral = locked;
      } in
      let s1 = stored store s m u merged in
      let w' : Ledger S = record {
        state = stored store s1 m v (emptied q);
        updated = (m, v) ∷ (m, u) ∷ w.updated;
      } in
      let old = laws.laws.mark_position w.state u id m u in
      let old' = laws.laws.mark_position w.state u id m v in
      let first : store.get_position s m u ≡ some p = cc in
      let second : store.get_position s m v ≡ some q = cc in
      let kept = stored-other store laws.laws s1 m m v u (emptied q) (inr distinct) in
      let same = stored-same store laws s m u merged in
      let taken : store.get_position (stored store s1 m v (emptied q)) m u ≡ some merged = cc in
      (
        w',
        ground (arith, first, second, eq_self u),
        taken,
        stored-same store laws s1 m v (emptied q),
      )

  -- Over a storage whose writes succeed and are read back, a merge that returns for a position with
  -- itself leaves it without shares, deposits and lock.
  pub merge_positions_self :
      (m : ℕ) (owner u caller : Address) (price : ℤ) (id : ℕ) (p : Position) (w w' : Ledger S)
      → store.get_position w.state m u ≡ some p
      → merge_positions store m owner u u caller price id tt w ≡ ok (tt, w')
      → store.get_position w'.state m u ≡ some (emptied p)
  unfolding merge_positions
  merge_positions_self m owner u caller price id p w w' present h =
      let s = store.mark_request_consumed w.state owner id in
      let old = laws.laws.mark_position w.state owner id m u in
      let first : store.get_position s m u ≡ some p = cc in
      elim (Option-cases (
        calculate_locked_collateral (p.yes_shares +ℤ p.yes_shares) (p.no_shares +ℤ p.no_shares)
          price)) [
            | inl panics ↦ absurd (ground (arith, first))
            | inr (locked, lock) ↦
                let merged : Position = record p {
                  yes_shares = p.yes_shares +ℤ p.yes_shares;
                  no_shares = p.no_shares +ℤ p.no_shares;
                  total_deposited = p.total_deposited +ℤ p.total_deposited;
                  locked_collateral = locked;
                } in
                let s1 = stored store s m u merged in
                let written : w'.state ≡ stored store s1 m u (emptied p) = ground (arith, first) in
                let same = stored-same store laws s1 m u (emptied p) in cc
          ]
