-- ===== src/Treasury/History/Books.antt =====
-- What the treasury has been reported, paid and holds after any history, and the shares by which it
-- pays (contracts/treasury/src/lib.rs).
use vatix_contract.Prelude.{
  ℕ, ℤ, Bool, true, false, inl, inr, none, refl, ok, List, [], ◌≡◌, arith, ap,
}
use vatix_contract.Treasury.Types.{Address}
use vatix_contract.Treasury.World.{Accessors, World, Env, fresh}
use vatix_contract.Treasury.Storage.{balance_of, cumulative_of}
use vatix_contract.Treasury.Laws.{IsAccessors}
use vatix_contract.Treasury.Fees.Collection.{collect_fee-Collected}
use vatix_contract.Treasury.Distribution
use vatix_contract.Treasury.Registry
use vatix_contract.Treasury.Admin
use vatix_contract.Treasury.History.{
  Request, initialize, collect_fee, withdraw_fees, propose_admin, execute_admin, cancel_admin,
  transfer_admin, add_market, remove_market, propose_market_contract, execute_market_contract,
  cancel_market_contract, set_market_contract, pause, unpause, set_emergency_mode,
  propose_stakeholders, execute_stakeholders, cancel_stakeholders, distribute_fees, exec, run,
}
use vatix_contract.Treasury.History.Ledger.{collected, paid}
use vatix_contract.Treasury.History.Weights.{IsWeighted, exec-IsWeighted}
use vatix_contract.Treasury.History.Payouts.{distribute_fees-Distributed}
use vatix_contract.Treasury.History.Custody.{
  IsKept, unmoved-IsKept, collect_fee-IsKept, withdraw_fees-IsKept, distribute-IsKept,
}
use vatix_contract.Treasury.History.Runs.{run-Keeps}

-- The calls that move a token.
abbrev moves_fees : {Mode : Type 0} → Request Mode → Bool
moves_fees (collect_fee c t m n) = true
moves_fees (withdraw_fees c t a n) = true
moves_fees (distribute_fees c t) = true
moves_fees q = false

module _ {S Mode : Type 0} (access : Accessors S Mode) (t : Address) where
  abbrev books : World S Mode → (ℤ × ℤ) × (ℕ × ℕ)
  books w = ((balance_of w.storage t, cumulative_of w.storage t), (paid t w.log, collected t w.log))

  exec-books :
      (q : Request Mode) (env : Env Mode) (w w' : World S Mode)
      → exec access q env w ≡ ok (tt, w')
      → moves_fees q ≡ false
      → books w' ≡ books w
  unfolding exec Admin.initialize Admin.propose_admin Admin.execute_admin Admin.cancel_admin
      Admin.transfer_admin Registry.add_market Registry.remove_market
      Registry.propose_market_contract Registry.execute_market_contract
      Registry.cancel_market_contract Registry.set_market_contract Admin.pause Admin.unpause
      Admin.set_emergency_mode Distribution.propose_stakeholders Distribution.execute_stakeholders
      Distribution.cancel_stakeholders
  exec-books (initialize a m) env w w' h moves = ground arith
  exec-books (propose_admin c a) env w w' h moves = ground arith
  exec-books execute_admin env w w' h moves = ground arith
  exec-books (cancel_admin c) env w w' h moves = ground arith
  exec-books (transfer_admin c a) env w w' h moves = ground arith
  exec-books (add_market c m) env w w' h moves = ground arith
  exec-books (remove_market c m) env w w' h moves = ground arith
  exec-books (propose_market_contract c m) env w w' h moves = ground arith
  exec-books execute_market_contract env w w' h moves = ground arith
  exec-books (cancel_market_contract c) env w w' h moves = ground arith
  exec-books (set_market_contract c m) env w w' h moves = ground arith
  exec-books (pause c) env w w' h moves = ground arith
  exec-books (unpause c) env w w' h moves = ground arith
  exec-books (set_emergency_mode c m) env w w' h moves = ground arith
  exec-books (propose_stakeholders c xs) env w w' h moves = ground arith
  exec-books execute_stakeholders env w w' h moves = ground arith
  exec-books (cancel_stakeholders c) env w w' h moves = ground arith
  exec-books (collect_fee c tk m n) env w w' h moves = absurd (ground arith)
  exec-books (withdraw_fees c tk a n) env w w' h moves = absurd (ground arith)
  exec-books (distribute_fees c tk) env w w' h moves = absurd (ground arith)

  -- A call that is none of the three.
  quiet-IsKept :
      (q : Request Mode) (env : Env Mode) (w w' : World S Mode)
      → moves_fees q ≡ false
      → exec access q env w ≡ ok (tt, w')
      → IsKept t w.storage w.log
      → IsKept t w'.storage w'.log
  quiet-IsKept q env w w' quiet h k =
      let same = exec-books q env w w' h quiet in
      unmoved-IsKept t w.storage w'.storage w.log w'.log (ap (λ b. (b.0).0) same)
        (ap (λ b. (b.0).1) same) (ap (λ b. (b.1).0) same) (ap (λ b. (b.1).1) same) k

module _ {S Mode : Type 0} (access : Accessors S Mode) (laws : IsAccessors access) where
  -- The books of the token `t`, and the shares.
  pub record IsSound (t : Address) (w : World S Mode) : Type 0 where
    pub weighted : IsWeighted access laws w.rest
    pub kept : IsKept t w.storage w.log

  exec-IsKept :
      (t : Address) (q : Request Mode) (env : Env Mode) (w w' : World S Mode)
      → IsWeighted access laws w.rest
      → exec access q env w ≡ ok (tt, w')
      → IsKept t w.storage w.log
      → IsKept t w'.storage w'.log
  unfolding exec
  exec-IsKept t (initialize a m) env w w' v h k =
      quiet-IsKept access t (initialize a m) env w w' refl h k
  exec-IsKept t (propose_admin c a) env w w' v h k =
      quiet-IsKept access t (propose_admin c a) env w w' refl h k
  exec-IsKept t execute_admin env w w' v h k = quiet-IsKept access t execute_admin env w w' refl h k
  exec-IsKept t (cancel_admin c) env w w' v h k =
      quiet-IsKept access t (cancel_admin c) env w w' refl h k
  exec-IsKept t (transfer_admin c a) env w w' v h k =
      quiet-IsKept access t (transfer_admin c a) env w w' refl h k
  exec-IsKept t (add_market c m) env w w' v h k =
      quiet-IsKept access t (add_market c m) env w w' refl h k
  exec-IsKept t (remove_market c m) env w w' v h k =
      quiet-IsKept access t (remove_market c m) env w w' refl h k
  exec-IsKept t (propose_market_contract c m) env w w' v h k =
      quiet-IsKept access t (propose_market_contract c m) env w w' refl h k
  exec-IsKept t execute_market_contract env w w' v h k =
      quiet-IsKept access t execute_market_contract env w w' refl h k
  exec-IsKept t (cancel_market_contract c) env w w' v h k =
      quiet-IsKept access t (cancel_market_contract c) env w w' refl h k
  exec-IsKept t (set_market_contract c m) env w w' v h k =
      quiet-IsKept access t (set_market_contract c m) env w w' refl h k
  exec-IsKept t (pause c) env w w' v h k = quiet-IsKept access t (pause c) env w w' refl h k
  exec-IsKept t (unpause c) env w w' v h k = quiet-IsKept access t (unpause c) env w w' refl h k
  exec-IsKept t (set_emergency_mode c m) env w w' v h k =
      quiet-IsKept access t (set_emergency_mode c m) env w w' refl h k
  exec-IsKept t (propose_stakeholders c xs) env w w' v h k =
      quiet-IsKept access t (propose_stakeholders c xs) env w w' refl h k
  exec-IsKept t execute_stakeholders env w w' v h k =
      quiet-IsKept access t execute_stakeholders env w w' refl h k
  exec-IsKept t (cancel_stakeholders c) env w w' v h k =
      quiet-IsKept access t (cancel_stakeholders c) env w w' refl h k
  exec-IsKept t (collect_fee c token m n) env w w' v h k =
      collect_fee-IsKept access t c token m n env w w'
        (collect_fee-Collected access c token m n env w w' h) k
  exec-IsKept t (withdraw_fees c token to n) env w w' v h k =
      withdraw_fees-IsKept access t c token to n env w w' h k
  exec-IsKept t (distribute_fees c token) env w w' v h k =
      let out = distribute_fees-Distributed access laws c token env w w' v h in
      distribute-IsKept access t token out.balance (laws.stakeholders_of w.rest) w w' out.held
        out.pays k

  exec-IsSound :
      (t : Address) (q : Request Mode) (env : Env Mode) (w w' : World S Mode)
      → exec access q env w ≡ ok (tt, w')
      → IsSound t w
      → IsSound t w'
  exec-IsSound t q env w w' h v = record {
    weighted = exec-IsWeighted access laws q env w w' h v.weighted;
    kept = exec-IsKept t q env w w' v.weighted h v.kept;
  }

  -- After any calls on a fresh treasury, by anyone and in any order, with no shares at the start: the
  -- shares in force and the waiting ones add up to 10000 or are absent, and for every token the payments
  -- and the balance are together at most the fees that were reported, exactly that unless the reports
  -- are past the range of i128, and the cumulative counter is the sum of the reports, capped at it.
  pub run-IsSound :
      (s : S) (t : Address) (cs : List (Env Mode × Request Mode))
      → laws.stakeholders_of s ≡ []
      → access.get_pending_stakeholders s ≡ none
      → IsSound t (run access cs (fresh s))
  run-IsSound s t cs none_yet none_waiting =
      run-Keeps access (IsSound t) (exec-IsSound t) cs (fresh s) (record {
        weighted = record { active = inr none_yet; waiting = inl none_waiting };
        kept = record {
          balance = 0;
          held = refl;
          covered = omega arith;
          exact = inl refl;
          counted = refl;
        };
      })
