-- ===== src/Treasury/History/Roles.antt =====
-- The entry points refine the abstract administrator and set of markets
-- (contracts/treasury/src/lib.rs).
use vatix_contract.Prelude.{
  inl, inr, Option, Option-cases, Outcome, err, trap, refl, ok, List, [], ◌∷◌, ⊤, ◌≡◌, arith,
}
use vatix_contract.Treasury.Types.{Address, TreasuryError}
use vatix_contract.Treasury.World.{Storage, Accessors, World, Env}
use vatix_contract.Treasury.Storage.{markets_of}
use vatix_contract.Treasury.Fees
use vatix_contract.Treasury.Fees.Collection.{collect_fee-Collected}
use vatix_contract.Treasury.Distribution
use vatix_contract.Treasury.Distribution.Frame.{distribute_fees-Touches}
use vatix_contract.Treasury.Registry
use vatix_contract.Treasury.Registry.Membership.{
  contains-append, contains-member, contains-without, contains-absent,
}
use vatix_contract.Treasury.Admin
use vatix_contract.Treasury.History.{
  Request, initialize, collect_fee, withdraw_fees, propose_admin, execute_admin, cancel_admin,
  transfer_admin, add_market, remove_market, propose_market_contract, execute_market_contract,
  cancel_market_contract, set_market_contract, pause, unpause, set_emergency_mode,
  propose_stakeholders, execute_stakeholders, cancel_stakeholders, distribute_fees, exec, commit,
  step, run,
}
use vatix_contract.Treasury.History.Directory.{Roles, amend, address_of, Shows}

-- The keys of the storage that `Shows` reads.
abbrev roles_of : Storage → (Option Address × List Address) × (Option Address × Option Address)
roles_of s =
    ((s.admin, markets_of s), (address_of s.pending_admin, address_of s.pending_market_contract))

same-Shows : (s s' : Storage) (r : Roles) → roles_of s' ≡ roles_of s → Shows s r → Shows s' r
same-Shows s s' r e v = record {
  administrator = ground (arith, e, v.administrator);
  registered = λ a. ground (arith, e, v.registered a);
  next_administrator = ground (arith, e, v.next_administrator);
  next_market = ground (arith, e, v.next_market);
}

unfoldable pub replay : {Mode : Type 0} → List (Request Mode) → Roles → Roles
replay [] r = r
replay (q ∷ qs) r = replay qs (amend q r)

module _ {S Mode : Type 0} (access : Accessors S Mode) where
  pub exec-Shows :
      (q : Request Mode) (env : Env Mode) (w w' : World S Mode) (r : Roles)
      → exec access q env w ≡ ok (tt, w')
      → Shows w.storage r
      → Shows w'.storage (amend q r)
  unfolding exec Admin.initialize Fees.withdraw_fees Admin.propose_admin Admin.execute_admin
      Admin.cancel_admin Admin.transfer_admin Registry.add_market Registry.remove_market
      Registry.propose_market_contract Registry.execute_market_contract
      Registry.cancel_market_contract Registry.set_market_contract Admin.pause Admin.unpause
      Admin.set_emergency_mode Distribution.propose_stakeholders Distribution.execute_stakeholders
      Distribution.cancel_stakeholders
  exec-Shows (collect_fee c t m n) env w w' r h v =
      let fee = collect_fee-Collected access c t m n env w w' h in
      same-Shows w.storage w'.storage r (ground (arith, fee.written)) v
  exec-Shows (withdraw_fees c t a n) env w w' r h v =
      same-Shows w.storage w'.storage r (ground arith) v
  exec-Shows (pause c) env w w' r h v = same-Shows w.storage w'.storage r (ground arith) v
  exec-Shows (unpause c) env w w' r h v = same-Shows w.storage w'.storage r (ground arith) v
  exec-Shows (set_emergency_mode c m) env w w' r h v =
      same-Shows w.storage w'.storage r (ground arith) v
  exec-Shows (propose_stakeholders c xs) env w w' r h v =
      same-Shows w.storage w'.storage r (ground arith) v
  exec-Shows execute_stakeholders env w w' r h v =
      same-Shows w.storage w'.storage r (ground arith) v
  exec-Shows (cancel_stakeholders c) env w w' r h v =
      same-Shows w.storage w'.storage r (ground arith) v
  exec-Shows (distribute_fees c t) env w w' r h v =
      let moved = distribute_fees-Touches access c t env w w' h in
      same-Shows w.storage w'.storage r (ground (arith, moved.written)) v
  exec-Shows (initialize a m) env w w' r h v = record {
    administrator = ground (arith, v.administrator, v.next_administrator);
    registered = λ x. ground (arith, v.registered x);
    next_administrator = ground (arith, v.next_administrator);
    next_market = ground (arith, v.next_market);
  }
  exec-Shows (propose_admin c a) env w w' r h v = record {
    administrator = ground (arith, v.administrator, v.next_administrator);
    registered = λ x. ground (arith, v.registered x);
    next_administrator = ground (arith, v.next_administrator);
    next_market = ground (arith, v.next_market);
  }
  exec-Shows execute_admin env w w' r h v = record {
    administrator = ground (arith, v.administrator, v.next_administrator);
    registered = λ x. ground (arith, v.registered x);
    next_administrator = ground (arith, v.next_administrator);
    next_market = ground (arith, v.next_market);
  }
  exec-Shows (cancel_admin c) env w w' r h v = record {
    administrator = ground (arith, v.administrator, v.next_administrator);
    registered = λ x. ground (arith, v.registered x);
    next_administrator = ground (arith, v.next_administrator);
    next_market = ground (arith, v.next_market);
  }
  exec-Shows (transfer_admin c a) env w w' r h v = record {
    administrator = ground (arith, v.administrator, v.next_administrator);
    registered = λ x. ground (arith, v.registered x);
    next_administrator = ground (arith, v.next_administrator);
    next_market = ground (arith, v.next_market);
  }
  exec-Shows (propose_market_contract c m) env w w' r h v = record {
    administrator = ground (arith, v.administrator, v.next_administrator);
    registered = λ x. ground (arith, v.registered x);
    next_administrator = ground (arith, v.next_administrator);
    next_market = ground (arith, v.next_market);
  }
  exec-Shows (cancel_market_contract c) env w w' r h v = record {
    administrator = ground (arith, v.administrator, v.next_administrator);
    registered = λ x. ground (arith, v.registered x);
    next_administrator = ground (arith, v.next_administrator);
    next_market = ground (arith, v.next_market);
  }
  exec-Shows (add_market c m) env w w' r h v = record {
    administrator = ground (arith, v.administrator, v.next_administrator);
    registered = λ x. ground (
      arith,
      v.registered x,
      contains-append (markets_of w.storage) m x,
      contains-member (markets_of w.storage) m x,
    );
    next_administrator = ground (arith, v.next_administrator);
    next_market = ground (arith, v.next_market);
  }
  exec-Shows (set_market_contract c m) env w w' r h v = record {
    administrator = ground (arith, v.administrator, v.next_administrator);
    registered = λ x. ground (
      arith,
      v.registered x,
      contains-append (markets_of w.storage) m x,
      contains-member (markets_of w.storage) m x,
    );
    next_administrator = ground (arith, v.next_administrator);
    next_market = ground (arith, v.next_market);
  }
  exec-Shows (remove_market c m) env w w' r h v = record {
    administrator = ground (arith, v.administrator, v.next_administrator);
    registered = λ x. ground (
      arith,
      v.registered x,
      contains-without (markets_of w.storage) m x,
      contains-absent (markets_of w.storage) m x,
    );
    next_administrator = ground (arith, v.next_administrator);
    next_market = ground (arith, v.next_market);
  }
  exec-Shows execute_market_contract env w w' r h v =
      elim (Option-cases w.storage.pending_market_contract) [
        | inl absent ↦ absurd (ground arith)
        | inr (p, e) ↦
            let m = p.new_address in
            record {
              administrator = ground (arith, e, v.administrator);
              registered = λ x. ground (
                arith,
                e,
                v.registered x,
                v.next_market,
                contains-append (markets_of w.storage) m x,
                contains-member (markets_of w.storage) m x,
              );
              next_administrator = ground (arith, e, v.next_administrator);
              next_market = ground (arith, e);
            }
      ]

  -- The calls of a history that returned.
  abbrev taken :
      Request Mode
      → Outcome TreasuryError (⊤ × World S Mode)
      → List (Request Mode)
      → List (Request Mode)
  taken q (ok x) qs = q ∷ qs
  taken q (err x) qs = qs
  taken q trap qs = qs

  unfoldable pub accepted : List (Env Mode × Request Mode) → World S Mode → List (Request Mode)
  accepted [] w = []
  accepted ((env, q) ∷ cs) w = taken q (exec access q env w) (accepted cs (step access (env, q) w))

  -- After any history the storage shows the roles that the calls which returned amount to, one after
  -- another: the administrator, the set of the registered markets, and the two addresses that wait.
  pub run-Shows :
      (cs : List (Env Mode × Request Mode)) (w : World S Mode) (r : Roles)
      → Shows w.storage r
      → Shows (run access cs w).storage (replay (accepted cs w) r)
  unfolding run step accepted replay
  run-Shows [] w r v = v
  run-Shows ((env, q) ∷ cs) w r v =
      go (λ w1 r1 v1. run-Shows cs w1 r1 v1) (exec access q env w) refl
    where
      go :
          ((w1 : World S Mode) (r1 : Roles)
            → Shows w1.storage r1
            → Shows (run access cs w1).storage (replay (accepted cs w1) r1))
          → (o : Outcome TreasuryError (⊤ × World S Mode)) → exec access q env w ≡ o
          → Shows
              (run access cs (commit access w o)).storage
              (replay (taken q o (accepted cs (commit access w o))) r)
      go later (ok (tt, w')) e = later w' (amend q r) (exec-Shows q env w w' r e v)
      go later (err x) e = later w r v
      go later trap e = later w r v
