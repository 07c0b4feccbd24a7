-- ===== src/Treasury/Storage.antt =====
-- The accessors of contracts/treasury/src/storage.rs.
use vatix_contract.Prelude.{
  ℕ, ℤ, pos, Bool, false, Option, none, some, List, [], ⊤, ◌==◌, if◌then◌else◌, update, unwrap_or,
  is_some, contains, pure, throw, gets, modify, expect, ◌>>=◌, ◌>>◌,
}
use vatix_contract.Treasury.Types.{
  Address, upgrade_required, deposits_paused as deposits_paused_error, PendingAddressChange,
}
use vatix_contract.Treasury.World.{Storage, M}

abbrev pub current_version : ℕ
current_version = 3

abbrev pub is_current : Option ℕ → Bool
is_current none = false
is_current (some v) = v == current_version

abbrev pub markets_of : Storage → List Address
markets_of s = unwrap_or s.authorized_markets []

abbrev pub balance_of : Storage → Address → ℤ
balance_of s t = unwrap_or (s.token_balance t) (pos 0)

abbrev pub cumulative_of : Storage → Address → ℤ
cumulative_of s t = unwrap_or (s.cumulative_fees t) (pos 0)

module _ {S Mode : Type 0} where
  abbrev pub read : {A : Type 0} → (Storage → A) → M S Mode A
  read f = gets (λ w. f w.storage)

  abbrev pub write : (Storage → Storage) → M S Mode ⊤
  write f = modify (λ w. record w { storage = f w.storage })

  abbrev pub set_version : M S Mode ⊤
  set_version = write (λ s. record s { storage_version = some current_version })

  abbrev pub get_version : M S Mode (Option ℕ)
  get_version = read (λ s. s.storage_version)

  abbrev pub assert_version : M S Mode ⊤
  assert_version = do v ← get_version; if is_current v then pure tt else throw upgrade_required

  abbrev pub has_admin : M S Mode Bool
  has_admin = read (λ s. is_some s.admin)

  abbrev pub get_admin : M S Mode Address
  get_admin = do assert_version; a ← read (λ s. s.admin); expect a

  abbrev pub set_admin : Address → M S Mode ⊤
  set_admin a = write (λ s. record s { admin = some a })

  abbrev pub get_pending_admin : M S Mode (Option PendingAddressChange)
  get_pending_admin = read (λ s. s.pending_admin)

  abbrev pub set_pending_admin : PendingAddressChange → M S Mode ⊤
  set_pending_admin p = write (λ s. record s { pending_admin = some p })

  abbrev pub clear_pending_admin : M S Mode ⊤
  clear_pending_admin = write (λ s. record s { pending_admin = none })

  abbrev pub get_authorized_markets : M S Mode (List Address)
  get_authorized_markets = read markets_of

  abbrev pub set_authorized_markets : List Address → M S Mode ⊤
  set_authorized_markets ms = write (λ s. record s { authorized_markets = some ms })

  abbrev pub is_authorized_market : Address → M S Mode Bool
  is_authorized_market a = do ms ← get_authorized_markets; pure (contains ms a)

  abbrev pub get_pending_market_contract : M S Mode (Option PendingAddressChange)
  get_pending_market_contract = read (λ s. s.pending_market_contract)

  abbrev pub set_pending_market_contract : PendingAddressChange → M S Mode ⊤
  set_pending_market_contract p = write (λ s. record s { pending_market_contract = some p })

  abbrev pub clear_pending_market_contract : M S Mode ⊤
  clear_pending_market_contract = write (λ s. record s { pending_market_contract = none })

  abbrev pub is_deposits_paused : M S Mode Bool
  is_deposits_paused = read (λ s. unwrap_or s.deposits_paused false)

  abbrev pub set_deposits_paused : Bool → M S Mode ⊤
  set_deposits_paused paused = write (λ s. record s { deposits_paused = some paused })

  abbrev pub assert_deposits_not_paused : M S Mode ⊤
  assert_deposits_not_paused = do
    paused ← is_deposits_paused
    if paused then throw deposits_paused_error else pure tt

  abbrev pub get_token_balance : Address → M S Mode ℤ
  get_token_balance t = do assert_version; read (λ s. balance_of s t)

  abbrev pub set_token_balance : Address → ℤ → M S Mode ⊤
  set_token_balance t n =
      write (λ s. record s { token_balance = update s.token_balance t (some n) })

  abbrev pub get_cumulative_fees : Address → M S Mode ℤ
  get_cumulative_fees t = do assert_version; read (λ s. cumulative_of s t)

  abbrev pub set_cumulative_fees : Address → ℤ → M S Mode ⊤
  set_cumulative_fees t n =
      write (λ s. record s { cumulative_fees = update s.cumulative_fees t (some n) })
