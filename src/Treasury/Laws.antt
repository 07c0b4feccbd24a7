-- ===== src/Treasury/Laws.antt =====
-- What the theorems assume of the accessors that contracts/treasury/src/storage.rs does not define:
-- `Stakeholders` and `PendingStakeholders` are keys of their own, which are read back as written and
-- which no other accessor writes.
use vatix_contract.Prelude.{ℤ, Bool, true, false, none, some, List, [], ◌∷◌, ◌≡◌, ok}
use vatix_contract.Treasury.Types.{Address, Share, PendingStakeholders}
use vatix_contract.Treasury.World.{Storage, Accessors, World, Env}
use vatix_contract.Treasury.Storage.{is_current}
use vatix_contract.Treasury.Guards.{allows}

module _ {S Mode : Type 0} (access : Accessors S Mode) where
  -- A write that leaves both keys alone.
  pub record IsSeparate (stakeholders_of : S → List Share) (f : S → S) : Type 0 where
    pub stakeholders : (s : S) → stakeholders_of (f s) ≡ stakeholders_of s
    pub pending :
        (s : S) → access.get_pending_stakeholders (f s) ≡ access.get_pending_stakeholders s

  -- `stakeholders_of` is the list that the storage holds, the empty one if there is none.
  pub record IsAccessors : Type 0 where
    pub stakeholders_of : S → List Share
    pub get_stakeholders :
        (st : Storage) (s : S) (xs : List Share)
        → access.get_stakeholders st s ≡ ok xs
        → xs ≡ stakeholders_of s
    pub set_stakeholders :
        (s : S) (xs : List Share) → stakeholders_of (access.set_stakeholders s xs) ≡ xs
    pub set_stakeholders_pending :
        (s : S) (xs : List Share)
        → access.get_pending_stakeholders (access.set_stakeholders s xs)
          ≡ access.get_pending_stakeholders s
    pub set_pending :
        (s : S) (p : PendingStakeholders)
        → access.get_pending_stakeholders (access.set_pending_stakeholders s p) ≡ some p
    pub set_pending_stakeholders :
        (s : S) (p : PendingStakeholders)
        → stakeholders_of (access.set_pending_stakeholders s p) ≡ stakeholders_of s
    pub clear_pending :
        (s : S) → access.get_pending_stakeholders (access.clear_pending_stakeholders s) ≡ none
    pub clear_pending_stakeholders :
        (s : S) → stakeholders_of (access.clear_pending_stakeholders s) ≡ stakeholders_of s
    pub emergency_mode :
        (m : Mode) → IsSeparate stakeholders_of (λ s. access.set_emergency_mode s m)
    pub paused : (b : Bool) → IsSeparate stakeholders_of (λ s. access.set_paused s b)
    pub fee_token : (t : Address) → IsSeparate stakeholders_of (λ s. access.register_fee_token s t)
    pub total : (n : ℤ) → IsSeparate stakeholders_of (λ s. access.set_total_collected s n)

  -- The guards that `withdraw_fees` and `distribute_fees` share let the administrator `c` through.
  pub record IsOpen (c : Address) (env : Env Mode) (w : World S Mode) : Type 0 where
    pub signed : env.authorized c ≡ true
    pub admin : w.storage.admin ≡ some c
    pub current : is_current w.storage.storage_version ≡ true
    pub running : access.is_paused w.rest ≡ false
    pub allowed :
        allows access
          (access.normal ∷ access.trading_halted ∷ access.settle_only ∷ [])
          (access.get_emergency_mode w.rest)
        ≡ true
