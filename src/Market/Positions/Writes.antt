-- ===== src/Market/Positions/Writes.antt =====
-- What a write of a position leaves behind (`set_position` as contracts/market/src/positions.rs calls
-- it, whose errors are passed over).
use vatix_contract.Prelude.{ℕ, some, Option-cases, inl, inr, ◌≡◌, ◌≢◌, ◌⊎◌, arith}
use vatix_contract.Market.Types.{Address, Position}
use vatix_contract.Market.Positions.{PositionStore, IsPositionStore, KeepsWrites, stored}

module _ {S : Type 0} (store : PositionStore S) (laws : IsPositionStore store) where
  pub stored-other :
      (s : S) (m k : ℕ) (u v : Address) (p : Position)
      → (k ≢ m) ⊎ (v ≢ u)
      → store.get_position (stored store s m u p) k v ≡ store.get_position s k v
  stored-other s m k u v p differ = elim (Option-cases (store.set_position s m u p)) [
    | inl fails ↦ ground (arith, fails)
    | inr (s', e) ↦ ground (arith, e, laws.set_other s s' m k u v p e differ)
  ]

  pub stored-consumed :
      (s : S) (m : ℕ) (u v : Address) (p : Position) (id : ℕ)
      → store.is_request_consumed (stored store s m u p) v id ≡ store.is_request_consumed s v id
  stored-consumed s m u v p id = elim (Option-cases (store.set_position s m u p)) [
    | inl fails ↦ ground (arith, fails)
    | inr (s', e) ↦ ground (arith, e, laws.set_consumed s s' m u v p id e)
  ]

module _ {S : Type 0} (store : PositionStore S) (keeps : KeepsWrites store) where
  pub stored-same :
      (s : S) (m : ℕ) (u : Address) (p : Position)
      → store.get_position (stored store s m u p) m u ≡ some p
  stored-same s m u p =
      let (s', e) = keeps.succeeds s m u p in ground (arith, e, keeps.laws.set_same s s' m u p e)
