-- ===== src/Resolution/Storage.antt =====
-- The typed accessors of contracts/resolution/src/storage.rs.
use vatix_contract.Prelude.{
  ℕ, ◌+◌, ◌^◌, ℤ, pos, Bool, false, Option, none, some, List, [], ◌∷◌, ◌++◌, ⊤, ltb, ◌==◌,
  if◌then◌else◌, update, unwrap_or, is_some, pure, throw, gets, expect, modify, ◌>>=◌, ◌>>◌,
}
use vatix_contract.Resolution.Types.{
  Address, upgrade_required, EmergencyMode, normal, ChallengeRecord, ResolutionCandidate,
  ResolutionConfig, PendingAddressChange,
}
use vatix_contract.Resolution.World.{Storage, M}

abbrev pub current_version : ℕ
current_version = 1

-- A read, and a write, of the storage alone.
abbrev pub read : {A : Type 0} → (Storage → A) → M A
read f = gets (λ w. f w.storage)

abbrev pub write : (Storage → Storage) → M ⊤
write f = modify (λ w. record w { storage = f w.storage })

abbrev pub set_version : M ⊤
set_version = write (λ s. record s { storage_version = some current_version })

abbrev pub get_version : M (Option ℕ)
get_version = read (λ s. s.storage_version)

abbrev pub is_current : Option ℕ → Bool
is_current none = false
is_current (some v) = v == current_version

abbrev pub assert_version : M ⊤
assert_version = do v ← get_version; if is_current v then pure tt else throw upgrade_required

abbrev pub has_config : M Bool
has_config = read (λ s. is_some s.config)

abbrev pub get_config : M ResolutionConfig
get_config = do c ← read (λ s. s.config); expect c

abbrev pub set_config : ResolutionConfig → M ⊤
set_config c = write (λ s. record s { config = some c })

abbrev pub get_pending_treasury : M (Option PendingAddressChange)
get_pending_treasury = read (λ s. s.pending_treasury)

abbrev pub set_pending_treasury : PendingAddressChange → M ⊤
set_pending_treasury p = write (λ s. record s { pending_treasury = some p })

abbrev pub clear_pending_treasury : M ⊤
clear_pending_treasury = write (λ s. record s { pending_treasury = none })

abbrev pub get_pending_factory : M (Option PendingAddressChange)
get_pending_factory = read (λ s. s.pending_factory)

abbrev pub set_pending_factory : PendingAddressChange → M ⊤
set_pending_factory p = write (λ s. record s { pending_factory = some p })

abbrev pub clear_pending_factory : M ⊤
clear_pending_factory = write (λ s. record s { pending_factory = none })

abbrev pub get_pending_market_contract : M (Option PendingAddressChange)
get_pending_market_contract = read (λ s. s.pending_market_contract)

abbrev pub set_pending_market_contract : PendingAddressChange → M ⊤
set_pending_market_contract p = write (λ s. record s { pending_market_contract = some p })

abbrev pub clear_pending_market_contract : M ⊤
clear_pending_market_contract = write (λ s. record s { pending_market_contract = none })

-- The u32 sum overflows past 2^32 - 1.
abbrev pub increment_candidate_id : M ℕ
increment_candidate_id = do
  old ← read (λ s. unwrap_or s.candidate_counter 0)
  next ← expect (if ltb (old + 1) (2 ^ 32) then some (old + 1) else none)
  write (λ s. record s { candidate_counter = some next })
  pure next

abbrev pub get_candidate : ℕ → M (Option ResolutionCandidate)
get_candidate candidate_id = read (λ s. s.candidate candidate_id)

abbrev pub set_candidate : ResolutionCandidate → M ⊤
set_candidate c = write λ s. record s {
  candidate = update s.candidate c.id (some c);
  candidate_by_market = update s.candidate_by_market c.market_id (some c.id);
}

abbrev pub get_candidate_id_for_market : ℕ → M (Option ℕ)
get_candidate_id_for_market market_id = read (λ s. s.candidate_by_market market_id)

abbrev pub get_proposer_collateral : Address → M ℤ
get_proposer_collateral proposer = read (λ s. unwrap_or (s.proposer_collateral proposer) (pos 0))

abbrev pub set_proposer_collateral : Address → ℤ → M ⊤
set_proposer_collateral proposer amount =
    write
      λ s. record s { proposer_collateral = update s.proposer_collateral proposer (some amount) }

abbrev pub get_challengers : ℕ → M (List ChallengeRecord)
get_challengers candidate_id = read (λ s. unwrap_or (s.challengers candidate_id) [])

abbrev pub append_challenger : ℕ → Address → ℤ → M ⊤
append_challenger candidate_id challenger bond = do
  challengers ← get_challengers candidate_id
  let all = challengers ++ record { challenger = challenger; bond = bond } ∷ []
  write (λ s. record s { challengers = update s.challengers candidate_id (some all) })

abbrev pub clear_challengers : ℕ → M ⊤
clear_challengers candidate_id =
    write (λ s. record s { challengers = update s.challengers candidate_id none })

abbrev pub get_treasury : M (Option Address)
get_treasury = read (λ s. s.treasury)

abbrev pub set_treasury : Address → M ⊤
set_treasury t = write (λ s. record s { treasury = some t })

abbrev pub get_emergency_mode : M EmergencyMode
get_emergency_mode = read (λ s. unwrap_or s.emergency_mode normal)

abbrev pub set_emergency_mode : EmergencyMode → M ⊤
set_emergency_mode mode = write (λ s. record s { emergency_mode = some mode })

abbrev pub is_paused : M Bool
is_paused = read (λ s. unwrap_or s.paused false)

abbrev pub set_paused : Bool → M ⊤
set_paused paused = write (λ s. record s { paused = some paused })
