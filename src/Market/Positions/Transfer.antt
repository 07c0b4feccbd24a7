-- ===== src/Market/Positions/Transfer.antt =====
-- What a transfer of shares does to the two positions (`transfer_position` of
-- contracts/market/src/positions.rs).
use vatix_contract.Prelude.{
  refl, ap, ℕ, ℤ, pos, ◌≤ℤ◌, ◌+ℤ◌, ◌-ℤ◌, some, Option-cases, inl, inr, ◌≡◌, ◌≢◌, ok, unwrap_or,
  arith,
}
use vatix_contract.Market.Types.{Address, Position}
use vatix_contract.Market.Positions.Writes.{stored-same, stored-other}
use vatix_contract.Market.Positions.{
  stored, PositionStore, KeepsWrites, Ledger, empty_position, calculate_locked_collateral,
  transfer_position,
}

add_neg : (a b : ℤ) → a +ℤ (pos 0 -ℤ b) ≡ a -ℤ b
unfolding ◌+ℤ◌ ◌-ℤ◌
add_neg a b = ground arith

module _ {S : Type 0} (store : PositionStore S) where
  -- The position of a user, who has an empty one at first.
  abbrev pub position_of : Ledger S → ℕ → Address → Position
  position_of w m u = unwrap_or (store.get_position w.state m u) (empty_position m u)

  -- What a return of `transfer_position` has checked and written.
  pub record Transferred (m : ℕ) (from to : Address) (y n : ℤ) (id : ℕ) (w w' : Ledger S)
      : Type 0 where
    source : Position
    locked_from : ℤ
    locked_to : ℤ
    found : store.get_position (store.mark_request_consumed w.state from id) m from ≡ some source
    dest : Position
    present :
        dest
        ≡ unwrap_or
            (store.get_position (store.mark_request_consumed w.state from id) m to)
            (empty_position m to)
    enough_yes : pos 0 ≤ℤ source.yes_shares -ℤ y
    enough_no : pos 0 ≤ℤ source.no_shares -ℤ n
    pub written :
        w'.state
        ≡ stored store
            (stored store (store.mark_request_consumed w.state from id) m from (record source {
              yes_shares = source.yes_shares -ℤ y;
              no_shares = source.no_shares -ℤ n;
              locked_collateral = locked_from;
            }))
            m
            to
            (record dest {
              yes_shares = dest.yes_shares +ℤ y;
              no_shares = dest.no_shares +ℤ n;
              locked_collateral = locked_to;
            })

  pub transfer_position-Transferred :
      (m : ℕ) (from to caller : Address) (y n price : ℤ) (id : ℕ) (w w' : Ledger S)
      → transfer_position store m from to caller y n price id tt w ≡ ok (tt, w')
      → Transferred m from to y n id w w'
  unfolding transfer_position
  transfer_position-Transferred m from to caller y n price id w w' h =
      let s = store.mark_request_consumed w.state from id in
      elim (Option-cases (store.get_position s m from)) [
        | inl absent ↦ absurd (ground arith)
        | inr (source, found) ↦
            let dest = unwrap_or (store.get_position s m to) (empty_position m to) in
            elim (Option-cases (
              calculate_locked_collateral (source.yes_shares -ℤ y) (source.no_shares -ℤ n) price)) [
                | inl panics ↦ absurd (ground arith)
                | inr (a, locked) ↦
                    elim (Option-cases (
                      calculate_locked_collateral (dest.yes_shares +ℤ y) (dest.no_shares +ℤ n)
                        price)) [
                          | inl panics ↦ absurd (ground arith)
                          | inr (b, locked') ↦ record {
                            source = source;
                            locked_from = a;
                            locked_to = b;
                            found = found;
                            dest = dest;
                            present = refl;
                            enough_yes = ground (arith, add_neg source.yes_shares y);
                            enough_no = ground (arith, add_neg source.no_shares n);
                            written = ground arith;
                          }
                        ]
              ]
      ]

  -- Over a storage whose writes succeed and are read back, a transfer that returns between two
  -- different users moves exactly the named shares from the one to the other, leaves 0 or more on the
  -- giving side, and changes no other user's position in the market.
  pub transfer_position-moves :
      (laws : KeepsWrites store) (m : ℕ) (from to caller : Address) (y n price : ℤ) (id : ℕ)
      (w w' : Ledger S)
      → from ≢ to
      → transfer_position store m from to caller y n price id tt w ≡ ok (tt, w')
      → (pos 0 ≤ℤ (position_of w' m from).yes_shares)
        × (pos 0 ≤ℤ (position_of w' m from).no_shares)
        × ((position_of w' m from).yes_shares ≡ (position_of w m from).yes_shares -ℤ y)
        × ((position_of w' m from).no_shares ≡ (position_of w m from).no_shares -ℤ n)
        × ((position_of w' m to).yes_shares ≡ (position_of w m to).yes_shares +ℤ y)
        × ((position_of w' m to).no_shares ≡ (position_of w m to).no_shares +ℤ n)
        × ((v : Address) → v ≢ from → v ≢ to → position_of w' m v ≡ position_of w m v)
  transfer_position-moves laws m from to caller y n price id w w' distinct h =
      let t = transfer_position-Transferred m from to caller y n price id w w' h in
      let s = store.mark_request_consumed w.state from id in
      let p : Position = record t.source {
        yes_shares = t.source.yes_shares -ℤ y;
        no_shares = t.source.no_shares -ℤ n;
        locked_collateral = t.locked_from;
      } in
      let q : Position = record t.dest {
        yes_shares = t.dest.yes_shares +ℤ y;
        no_shares = t.dest.no_shares +ℤ n;
        locked_collateral = t.locked_to;
      } in
      let s1 = stored store s m from p in
      let given = stored-same store laws s m from p in
      let kept = stored-other store laws.laws s1 m m to from q (inr distinct) in
      let taken = stored-same store laws s1 m to q in
      let old = laws.laws.mark_position w.state from id m from in
      let old' = laws.laws.mark_position w.state from id m to in
      let last : w'.state ≡ stored store s1 m to q = t.written in
      let out : store.get_position w'.state m from ≡ some p = cc in
      let come : store.get_position w'.state m to ≡ some q = cc in
      (
        ground (arith, t.enough_yes),
        ground (arith, t.enough_no),
        ground (arith, t.found),
        ground (arith, t.found),
        ground (arith, t.present),
        ground (arith, t.present),
        λ v ne ne'.
            let a = stored-other store laws.laws s m m from v p (inr ne) in
            let b = stored-other store laws.laws s1 m m to v q (inr ne') in
            let c = laws.laws.mark_position w.state from id m v in
            let same : store.get_position w'.state m v ≡ store.get_position w.state m v = cc in
            ap (λ o. unwrap_or o (empty_position m v)) same,
      )

  -- Over a storage whose writes succeed and are read back, a transfer that returns from a user to the
  -- same user adds the named shares to the position and takes none away.
  pub transfer_position_self :
      (laws : KeepsWrites store) (m : ℕ) (u caller : Address) (y n price : ℤ) (id : ℕ)
      (w w' : Ledger S)
      → transfer_position store m u u caller y n price id tt w ≡ ok (tt, w')
      → ((position_of w' m u).yes_shares ≡ (position_of w m u).yes_shares +ℤ y)
        × ((position_of w' m u).no_shares ≡ (position_of w m u).no_shares +ℤ n)
  transfer_position_self laws m u caller y n price id w w' h =
      let t = transfer_position-Transferred m u u caller y n price id w w' h in
      let s = store.mark_request_consumed w.state u id in
      let p : Position = record t.source {
        yes_shares = t.source.yes_shares -ℤ y;
        no_shares = t.source.no_shares -ℤ n;
        locked_collateral = t.locked_from;
      } in
      let q : Position = record t.dest {
        yes_shares = t.dest.yes_shares +ℤ y;
        no_shares = t.dest.no_shares +ℤ n;
        locked_collateral = t.locked_to;
      } in
      let taken = stored-same store laws (stored store s m u p) m u q in
      let old = laws.laws.mark_position w.state u id m u in
      let come : store.get_position w'.state m u ≡ some q = cc in
      (ground (arith, t.present), ground (arith, t.present))
