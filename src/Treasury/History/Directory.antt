-- ===== src/Treasury/History/Directory.antt =====
-- Who administers the treasury and which markets it knows, as an abstract state that forgets the order
-- of the registry, with the meaning of each call (contracts/treasury/src/lib.rs).
use vatix_contract.Prelude.{Bool, not, ◌&&◌, ◌||◌, ◌==◌, none, some, Option, ◌≡◌, contains}
use vatix_contract.Treasury.Types.{Address, PendingAddressChange}
use vatix_contract.Treasury.World.{Storage}
use vatix_contract.Treasury.Storage.{markets_of}
use vatix_contract.Treasury.History.{
  Request, initialize, collect_fee, withdraw_fees, propose_admin, execute_admin, cancel_admin,
  transfer_admin, add_market, remove_market, propose_market_contract, execute_market_contract,
  cancel_market_contract, set_market_contract, pause, unpause, set_emergency_mode,
  propose_stakeholders, execute_stakeholders, cancel_stakeholders, distribute_fees,
}

pub record Roles : Type 0 where
  pub administrator : Option Address
  pub registered : Address → Bool
  pub next_administrator : Option Address
  pub next_market : Option Address

-- A set of addresses with one more, and with one less.
abbrev pub with_one : Address → (Address → Bool) → Address → Bool
with_one m f a = m == a || f a

abbrev pub without_one : Address → (Address → Bool) → Address → Bool
without_one m f a = not (m == a) && f a

abbrev pub with_next : Option Address → (Address → Bool) → Address → Bool
with_next none f = f
with_next (some m) f = with_one m f

-- What a call that returns means for the roles.
abbrev pub amend : {Mode : Type 0} → Request Mode → Roles → Roles
amend (initialize a m) r = record r { administrator = some a; registered = λ x. m == x }
amend (propose_admin c a) r = record r { next_administrator = some a }
amend execute_admin r = record r { administrator = r.next_administrator; next_administrator = none }
amend (cancel_admin c) r = record r { next_administrator = none }
amend (transfer_admin c a) r = record r { administrator = some a }
amend (add_market c m) r = record r { registered = with_one m r.registered }
amend (remove_market c m) r = record r { registered = without_one m r.registered }
amend (propose_market_contract c m) r = record r { next_market = some m }
amend execute_market_contract r = record r {
  registered = with_next r.next_market r.registered;
  next_market = none;
}
amend (cancel_market_contract c) r = record r { next_market = none }
amend (set_market_contract c m) r = record r { registered = with_one m r.registered }
amend (collect_fee c t m n) r = r
amend (withdraw_fees c t a n) r = r
amend (pause c) r = r
amend (unpause c) r = r
amend (set_emergency_mode c m) r = r
amend (propose_stakeholders c xs) r = r
amend execute_stakeholders r = r
amend (cancel_stakeholders c) r = r
amend (distribute_fees c t) r = r

abbrev pub address_of : Option PendingAddressChange → Option Address
address_of none = none
address_of (some p) = some p.new_address

-- The storage shows the roles `r`.
pub record Shows (s : Storage) (r : Roles) : Type 0 where
  pub administrator : s.admin ≡ r.administrator
  pub registered : (a : Address) → contains (markets_of s) a ≡ r.registered a
  pub next_administrator : address_of s.pending_admin ≡ r.next_administrator
  pub next_market : address_of s.pending_market_contract ≡ r.next_market
