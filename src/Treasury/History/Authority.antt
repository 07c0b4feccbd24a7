-- ===== src/Treasury/History/Authority.antt =====
-- Who may make each call of the treasury, and when (contracts/treasury/src/lib.rs).
use vatix_contract.Prelude.{
  ◌≤◌, true, inl, inr, none, some, Option, Option-cases, Outcome, err, trap, refl, ok, List, ◌≡◌,
  arith, contains,
}
use vatix_contract.Treasury.Types.{
  Address, TreasuryError, Share, PendingAddressChange, PendingStakeholders,
}
use vatix_contract.Treasury.World.{Accessors, World, Env}
use vatix_contract.Treasury.Storage.{markets_of}
use vatix_contract.Treasury.Fees
use vatix_contract.Treasury.Fees.Collection.{collect_fee-Collected}
use vatix_contract.Treasury.Distribution
use vatix_contract.Treasury.Registry
use vatix_contract.Treasury.Admin
use vatix_contract.Treasury.History.{
  Request, initialize, collect_fee, withdraw_fees, propose_admin, execute_admin, cancel_admin,
  transfer_admin, add_market, remove_market, propose_market_contract, execute_market_contract,
  cancel_market_contract, set_market_contract, pause, unpause, set_emergency_mode,
  propose_stakeholders, execute_stakeholders, cancel_stakeholders, distribute_fees, exec,
}

module _ {S Mode : Type 0} (access : Accessors S Mode) where
  -- `c` signed the call and is the administrator in storage.
  abbrev pub ByAdmin : Address → Env Mode → World S Mode → Type 0
  ByAdmin c env w = (env.authorized c ≡ true) × (w.storage.admin ≡ some c)

  -- A change of an address waits, and its time has come.
  abbrev pub Matured : Option PendingAddressChange → Env Mode → Type 0
  Matured found env =
      (p : PendingAddressChange) × (found ≡ some p) × (p.effective_at ≤ env.timestamp)

  abbrev pub MaturedShares : Env Mode → World S Mode → Type 0
  MaturedShares env w =
      (p : PendingStakeholders) × (access.get_pending_stakeholders w.rest ≡ some p)
      × (p.effective_at ≤ env.timestamp)

  -- Who has to call: the new administrator of a contract that has none; a registered market; anybody,
  -- for a change whose time has come; the administrator for everything else.
  abbrev pub IsAuthorized : Request Mode → Env Mode → World S Mode → Type 0
  IsAuthorized (initialize a m) env w = (env.authorized a ≡ true) × (w.storage.admin ≡ none)
  IsAuthorized (collect_fee c t m n) env w =
      (env.authorized c ≡ true) × (contains (markets_of w.storage) c ≡ true)
  IsAuthorized execute_admin env w = Matured w.storage.pending_admin env
  IsAuthorized execute_market_contract env w = Matured w.storage.pending_market_contract env
  IsAuthorized execute_stakeholders env w = MaturedShares env w
  IsAuthorized (propose_admin c a) env w = ByAdmin c env w
  IsAuthorized (cancel_admin c) env w = ByAdmin c env w
  IsAuthorized (transfer_admin c a) env w = ByAdmin c env w
  IsAuthorized (add_market c m) env w = ByAdmin c env w
  IsAuthorized (remove_market c m) env w = ByAdmin c env w
  IsAuthorized (propose_market_contract c m) env w = ByAdmin c env w
  IsAuthorized (cancel_market_contract c) env w = ByAdmin c env w
  IsAuthorized (set_market_contract c m) env w = ByAdmin c env w
  IsAuthorized (pause c) env w = ByAdmin c env w
  IsAuthorized (unpause c) env w = ByAdmin c env w
  IsAuthorized (set_emergency_mode c m) env w = ByAdmin c env w
  IsAuthorized (propose_stakeholders c xs) env w = ByAdmin c env w
  IsAuthorized (cancel_stakeholders c) env w = ByAdmin c env w
  IsAuthorized (withdraw_fees c t a n) env w = ByAdmin c env w
  IsAuthorized (distribute_fees c t) env w = ByAdmin c env w

  distribute_fees-ByAdmin :
      (c t : Address) (env : Env Mode) (w w' : World S Mode)
      → Distribution.distribute_fees access c t env w ≡ ok (tt, w')
      → ByAdmin c env w
  unfolding Distribution.distribute_fees
  distribute_fees-ByAdmin c t env w w' h = go (access.get_stakeholders w.storage w.rest) refl
    where
      go :
          (r : Outcome TreasuryError (List Share))
          → access.get_stakeholders w.storage w.rest ≡ r
          → ByAdmin c env w
      go (ok xs) e = (ground (arith, e), ground (arith, e))
      go (err x) e = absurd (ground (arith, e))
      go trap e = absurd (ground (arith, e))

  -- A call of the treasury returns only for whom it is meant: initialize for the new administrator's
  -- signature on a contract that has none, collect_fee for a registered market that signed, the
  -- execute_ calls for a waiting change whose time has come, and every other call for the signature
  -- of the administrator in storage.
  pub exec-IsAuthorized :
      (q : Request Mode) (env : Env Mode) (w w' : World S Mode)
      → exec access q env w ≡ ok (tt, w')
      → IsAuthorized q env w
  unfolding exec Admin.initialize Fees.withdraw_fees Admin.propose_admin Admin.execute_admin
      Admin.cancel_admin Admin.transfer_admin Registry.add_market Registry.remove_market
      Registry.propose_market_contract Registry.execute_market_contract
      Registry.cancel_market_contract Registry.set_market_contract Admin.pause Admin.unpause
      Admin.set_emergency_mode Distribution.propose_stakeholders Distribution.execute_stakeholders
      Distribution.cancel_stakeholders
  exec-IsAuthorized (initialize a m) env w w' h = (ground arith, ground arith)
  exec-IsAuthorized (propose_admin c a) env w w' h = (ground arith, ground arith)
  exec-IsAuthorized (cancel_admin c) env w w' h = (ground arith, ground arith)
  exec-IsAuthorized (transfer_admin c a) env w w' h = (ground arith, ground arith)
  exec-IsAuthorized (add_market c m) env w w' h = (ground arith, ground arith)
  exec-IsAuthorized (remove_market c m) env w w' h = (ground arith, ground arith)
  exec-IsAuthorized (propose_market_contract c m) env w w' h = (ground arith, ground arith)
  exec-IsAuthorized (cancel_market_contract c) env w w' h = (ground arith, ground arith)
  exec-IsAuthorized (set_market_contract c m) env w w' h = (ground arith, ground arith)
  exec-IsAuthorized (pause c) env w w' h = (ground arith, ground arith)
  exec-IsAuthorized (unpause c) env w w' h = (ground arith, ground arith)
  exec-IsAuthorized (set_emergency_mode c m) env w w' h = (ground arith, ground arith)
  exec-IsAuthorized (propose_stakeholders c xs) env w w' h = (ground arith, ground arith)
  exec-IsAuthorized (cancel_stakeholders c) env w w' h = (ground arith, ground arith)
  exec-IsAuthorized (withdraw_fees c t a n) env w w' h = (ground arith, ground arith)
  exec-IsAuthorized (collect_fee c t m n) env w w' h =
      let fee = collect_fee-Collected access c t m n env w w' h in (fee.signed, fee.registered)
  exec-IsAuthorized (distribute_fees c t) env w w' h = distribute_fees-ByAdmin c t env w w' h
  exec-IsAuthorized execute_admin env w w' h = elim (Option-cases w.storage.pending_admin) [
    | inl absent ↦ absurd (ground arith)
    | inr (p, e) ↦ (p, e, ground (arith, e))
  ]
  exec-IsAuthorized execute_market_contract env w w' h =
      elim (Option-cases w.storage.pending_market_contract) [
        | inl absent ↦ absurd (ground arith)
        | inr (p, e) ↦ (p, e, ground (arith, e))
      ]
  exec-IsAuthorized execute_stakeholders env w w' h =
      elim (Option-cases (access.get_pending_stakeholders w.rest)) [
        | inl absent ↦ absurd (ground arith)
        | inr (p, e) ↦ (p, e, ground (arith, e))
      ]
