-- ===== src/Treasury/History/Weights.antt =====
-- Every list of shares that the treasury holds adds up to ten thousand ten-thousandths
-- (contracts/treasury/src/lib.rs, `propose_stakeholders`).
use vatix_contract.Prelude.{
  true, false, ◌+◌, ℕ, ℤ, pos, none, some, Option-cases, inl, inr, List, [], ◌≡◌, ◌⊎◌, refl, ok,
  arith,
}
use vatix_contract.Treasury.Types.{Address, Share, PendingStakeholders}
use vatix_contract.Treasury.World.{Accessors, World, Env}
use vatix_contract.Treasury.Laws.{IsSeparate, IsAccessors}
use vatix_contract.Treasury.Fees
use vatix_contract.Treasury.Fees.Collection.{collect_fee-Collected}
use vatix_contract.Treasury.Distribution
use vatix_contract.Treasury.Registry
use vatix_contract.Treasury.Admin
use vatix_contract.Treasury.Distribution.{sum_shares}
use vatix_contract.Treasury.Distribution.Shares.{weight, sum_shares-weight}
use vatix_contract.Treasury.Distribution.Frame.{distribute_fees-Touches}
use vatix_contract.Treasury.History.{
  Request, initialize, collect_fee, withdraw_fees, propose_admin, execute_admin, cancel_admin,
  transfer_admin, add_market, remove_market, propose_market_contract, execute_market_contract,
  cancel_market_contract, set_market_contract, pause, unpause, set_emergency_mode,
  propose_stakeholders, execute_stakeholders, cancel_stakeholders, distribute_fees, exec,
}

module _ {S Mode : Type 0} (access : Accessors S Mode) (laws : IsAccessors access) where
  abbrev pub Weighs : List Share → Type 0
  Weighs xs = (weight xs ≡ 10000) ⊎ (xs ≡ [])

  -- The list in force and the pending one.
  pub record IsWeighted (s : S) : Type 0 where
    pub active : Weighs (laws.stakeholders_of s)
    pub waiting :
        (access.get_pending_stakeholders s ≡ none)
        ⊎ ((p : PendingStakeholders) × (access.get_pending_stakeholders s ≡ some p)
            × (weight p.stakeholders ≡ 10000))

  separate-IsWeighted :
      (f : S → S) (s s' : S)
      → IsSeparate access laws.stakeholders_of f
      → s' ≡ f s
      → IsWeighted s
      → IsWeighted s'
  separate-IsWeighted f s s' sep e h = record {
    active = ground (arith, sep.stakeholders s, h.active);
    waiting = rw (e, sep.pending s) h.waiting;
  }

  propose_stakeholders-IsWeighted :
      (c : Address) (xs : List Share) (env : Env Mode) (w w' : World S Mode)
      → Distribution.propose_stakeholders access c xs env w ≡ ok (tt, w')
      → IsWeighted w.rest
      → IsWeighted w'.rest
  unfolding Distribution.propose_stakeholders
  propose_stakeholders-IsWeighted c xs env w w' h ok_before =
      elim (Option-cases (sum_shares xs (pos 0))) [
        | inl overflows ↦ absurd (ground arith)
        | inr (t, e) ↦
            let full : weight xs ≡ 10000 = ground (arith, sum_shares-weight xs 0 t e) in
            let p : PendingStakeholders = record {
              stakeholders = xs;
              effective_at = env.timestamp + 172800;
            } in
            let written : w'.rest ≡ access.set_pending_stakeholders w.rest p = ground arith in
            record {
              active = rw (written, laws.set_pending_stakeholders w.rest p) ok_before.active;
              waiting = inr (p, rw written (laws.set_pending w.rest p), full);
            }
      ]

  same-IsWeighted : (s s' : S) → s' ≡ s → IsWeighted s → IsWeighted s'
  same-IsWeighted s s' e h = rw e h

  execute_stakeholders-IsWeighted :
      (env : Env Mode) (w w' : World S Mode)
      → Distribution.execute_stakeholders access env w ≡ ok (tt, w')
      → IsWeighted w.rest
      → IsWeighted w'.rest
  unfolding Distribution.execute_stakeholders
  execute_stakeholders-IsWeighted env w w' h k = elim k.waiting [
    | inl absent ↦ absurd (ground arith)
    | inr (p, e, full) ↦
        let s1 = access.set_stakeholders w.rest p.stakeholders in
        let written : w'.rest ≡ access.clear_pending_stakeholders s1 = ground (arith, e) in
        record {
          active =
              rw
                (
                  written,
                  laws.clear_pending_stakeholders s1,
                  laws.set_stakeholders w.rest p.stakeholders,
                )
                (inl full);
          waiting = inl (rw written (laws.clear_pending s1));
        }
  ]

  collect_fee-IsWeighted :
      (c t : Address) (m : ℕ) (n : ℤ) (env : Env Mode) (w w' : World S Mode)
      → Fees.collect_fee access c t m n env w ≡ ok (tt, w')
      → IsWeighted w.rest
      → IsWeighted w'.rest
  collect_fee-IsWeighted c t m n env w w' h k =
      let fee = collect_fee-Collected access c t m n env w w' h in
      let s1 = access.register_fee_token w.rest t in
      separate-IsWeighted (λ s. access.set_total_collected s fee.total) s1 w'.rest
        (laws.total fee.total) fee.rest'
        (separate-IsWeighted (λ s. access.register_fee_token s t) w.rest s1 (laws.fee_token t) refl
          k)

  pub exec-IsWeighted :
      (q : Request Mode) (env : Env Mode) (w w' : World S Mode)
      → exec access q env w ≡ ok (tt, w')
      → IsWeighted w.rest
      → IsWeighted w'.rest
  unfolding exec Admin.initialize Fees.withdraw_fees Admin.propose_admin Admin.execute_admin
      Admin.cancel_admin Admin.transfer_admin Registry.add_market Registry.remove_market
      Registry.propose_market_contract Registry.execute_market_contract
      Registry.cancel_market_contract Registry.set_market_contract Admin.pause Admin.unpause
      Admin.set_emergency_mode Distribution.execute_stakeholders Distribution.cancel_stakeholders
  exec-IsWeighted (initialize a m) env w w' h k = same-IsWeighted w.rest w'.rest (ground arith) k
  exec-IsWeighted (withdraw_fees c t a n) env w w' h k =
      same-IsWeighted w.rest w'.rest (ground arith) k
  exec-IsWeighted (propose_admin c a) env w w' h k = same-IsWeighted w.rest w'.rest (ground arith) k
  exec-IsWeighted execute_admin env w w' h k = same-IsWeighted w.rest w'.rest (ground arith) k
  exec-IsWeighted (cancel_admin c) env w w' h k = same-IsWeighted w.rest w'.rest (ground arith) k
  exec-IsWeighted (transfer_admin c a) env w w' h k =
      same-IsWeighted w.rest w'.rest (ground arith) k
  exec-IsWeighted (add_market c m) env w w' h k = same-IsWeighted w.rest w'.rest (ground arith) k
  exec-IsWeighted (remove_market c m) env w w' h k = same-IsWeighted w.rest w'.rest (ground arith) k
  exec-IsWeighted (propose_market_contract c m) env w w' h k =
      same-IsWeighted w.rest w'.rest (ground arith) k
  exec-IsWeighted execute_market_contract env w w' h k =
      same-IsWeighted w.rest w'.rest (ground arith) k
  exec-IsWeighted (cancel_market_contract c) env w w' h k =
      same-IsWeighted w.rest w'.rest (ground arith) k
  exec-IsWeighted (set_market_contract c m) env w w' h k =
      same-IsWeighted w.rest w'.rest (ground arith) k
  exec-IsWeighted (pause c) env w w' h k =
      separate-IsWeighted (λ s. access.set_paused s true) w.rest w'.rest (laws.paused true)
        (ground arith) k
  exec-IsWeighted (unpause c) env w w' h k =
      separate-IsWeighted (λ s. access.set_paused s false) w.rest w'.rest (laws.paused false)
        (ground arith) k
  exec-IsWeighted (set_emergency_mode c m) env w w' h k =
      separate-IsWeighted (λ s. access.set_emergency_mode s m) w.rest w'.rest
        (laws.emergency_mode m) (ground arith) k
  exec-IsWeighted (propose_stakeholders c xs) env w w' h k =
      propose_stakeholders-IsWeighted c xs env w w' h k
  exec-IsWeighted (distribute_fees c t) env w w' h k =
      same-IsWeighted w.rest w'.rest (distribute_fees-Touches access c t env w w' h).rest k
  exec-IsWeighted (cancel_stakeholders c) env w w' h k =
      let written : w'.rest ≡ access.clear_pending_stakeholders w.rest = ground arith in
      record {
        active = rw (written, laws.clear_pending_stakeholders w.rest) k.active;
        waiting = inl (rw written (laws.clear_pending w.rest));
      }
  exec-IsWeighted execute_stakeholders env w w' h k = execute_stakeholders-IsWeighted env w w' h k
  exec-IsWeighted (collect_fee c t m n) env w w' h k = collect_fee-IsWeighted c t m n env w w' h k
