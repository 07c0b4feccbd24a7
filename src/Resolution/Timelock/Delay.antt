-- ===== src/Resolution/Timelock/Delay.antt =====
-- A change of an address is applied no sooner than the timelock after it was proposed.
use vatix_contract.Prelude.{
  ℕ, ◌+◌, ◌≤◌, some, Option-cases, inl, inr, List, [], ◌∷◌, ◌≡◌, ◌≢◌, ◌⊎◌, refl, sym, subst, ◌∙◌,
  Outcome, ok, err, trap, ⊤, arith,
}
use vatix_contract.Resolution.Types.{Address, ContractError, PendingAddressChange}
use vatix_contract.Resolution.World.{Env, World, fresh}
use vatix_contract.Resolution.Guards.{address_timelock_seconds}
use vatix_contract.Resolution.Admin.{execute_factory, execute_market_contract, execute_treasury}
use vatix_contract.Resolution.History.{Request, exec, commit, step, run}
use vatix_contract.Resolution.Timelock.{
  Slot, factory, market_contract, treasury, pending, proposes, executes,
}
use vatix_contract.Resolution.Timelock.Slots.{After, exec-After}

-- A call of the history that satisfies `P`.
pub data Some (P : Env → Request → Type 0) : List (Env × Request) → Type 0 where
  here : (env : Env) (q : Request) (cs : List (Env × Request)) → P env q → Some P ((env, q) ∷ cs)
  there : (c : Env × Request) (cs : List (Env × Request)) → Some P cs → Some P (c ∷ cs)

-- The request that fills the slot with the change `p`.
abbrev pub Fills : Slot → PendingAddressChange → Env → Request → Type 0
Fills k p env q =
    (admin : Address) × (q ≡ proposes k admin p.new_address)
    × (p.effective_at ≡ env.timestamp + address_timelock_seconds)

step-pending :
    (k : Slot) (env : Env) (q : Request) (w : World) (p : PendingAddressChange)
    → pending k (step (env, q) w).storage ≡ some p
    → (pending k w.storage ≡ some p) ⊎ Fills k p env q
unfolding step
step-pending k env q w p = go (exec q env w) refl
  where
    split :
        (w' : World)
        → After env w w' k q
        → pending k w'.storage ≡ some p
        → (pending k w.storage ≡ some p) ⊎ Fills k p env q
    split w' (inl same) h = inl (sym same ∙ h)
    split w' (inr (inl gone)) h = absurd (cc)
    split w' (inr (inr (admin, a, e, f))) h =
        let named : a ≡ p.new_address = ground arith in
        inr (admin, subst (λ x. q ≡ proposes k admin x) named e, ground arith)

    go :
        (r : Outcome ContractError (⊤ × World))
        → exec q env w ≡ r
        → pending k (commit w r).storage ≡ some p
        → (pending k w.storage ≡ some p) ⊎ Fills k p env q
    go (ok (u, w')) e h = split w' (exec-After env w w' k q e) h
    go (err x) e h = inl h
    go trap e h = inl h

run_from-pending :
    (k : Slot) (cs : List (Env × Request)) (w : World) (p : PendingAddressChange)
    → pending k (run cs w).storage ≡ some p
    → (pending k w.storage ≡ some p) ⊎ Some (Fills k p) cs
unfolding run
run_from-pending k [] w p h = inl h
run_from-pending k ((env, q) ∷ cs) w p h = elim (run_from-pending k cs (step (env, q) w) p h) [
  | inr later ↦ inr (there (env, q) cs later)
  | inl kept ↦ elim (step-pending k env q w p kept) [
    | inl older ↦ inl older
    | inr fills ↦ inr (here env q cs fills)
  ]
]

fresh-pending : (k : Slot) (p : PendingAddressChange) → pending k fresh.storage ≢ some p
fresh-pending factory p h = absurd (cc)
fresh-pending market_contract p h = absurd (cc)
fresh-pending treasury p h = absurd (cc)

-- What a return of the call that applies a change has found in the slot.
executes-pending :
    (k : Slot) (env : Env) (w w' : World) (a : Address)
    → executes k env w ≡ ok (a, w')
    → (p : PendingAddressChange) × (pending k w.storage ≡ some p)
      × (p.new_address ≡ a)
      × (p.effective_at ≤ env.timestamp)
unfolding execute_factory execute_market_contract execute_treasury
executes-pending factory env w w' a h = elim (Option-cases w.storage.pending_factory) [
  | inl absent ↦ absurd (ground arith)
  | inr (p, e) ↦ (p, e, ground arith, ground arith)
]
executes-pending market_contract env w w' a h =
    elim (Option-cases w.storage.pending_market_contract) [
      | inl absent ↦ absurd (ground arith)
      | inr (p, e) ↦ (p, e, ground arith, ground arith)
    ]
executes-pending treasury env w w' a h = elim (Option-cases w.storage.pending_treasury) [
  | inl absent ↦ absurd (ground arith)
  | inr (p, e) ↦ (p, e, ground arith, ground arith)
]

Some-map :
    {P Q : Env → Request → Type 0} (f : (env : Env) (q : Request) → P env q → Q env q)
    (cs : List (Env × Request))
    → Some P cs
    → Some Q cs
Some-map f _ (here env q cs p) = here env q cs (f env q p)
Some-map f _ (there c cs s) = there c cs (Some-map f cs s)

-- A request for the address `a` in the slot `k` at least the timelock before `now`.
abbrev pub IsDue : Slot → Address → ℕ → Env → Request → Type 0
IsDue k a now env q =
    (admin : Address) × (q ≡ proposes k admin a) × (env.timestamp + address_timelock_seconds ≤ now)

-- If `execute_factory`, `execute_market_contract` or `execute_treasury` returns an address after a
-- history from deployment, the history has a call that proposed this address for the same slot at
-- least 172800 seconds before.
pub executes-IsDue :
    (k : Slot) (cs : List (Env × Request)) (env : Env) (a : Address) (w' : World)
    → executes k env (run cs fresh) ≡ ok (a, w')
    → Some (IsDue k a env.timestamp) cs
executes-IsDue k cs env a w' h =
    let (p, found, named, due) = executes-pending k env (run cs fresh) w' a h in
    elim (run_from-pending k cs fresh p found) [
      | inl early ↦ absurd (fresh-pending k p early)
      | inr some_call ↦
          Some-map
            (λ e q (admin, is, at).
              (admin, subst (λ x. q ≡ proposes k admin x) named is, omega (arith, at, due)))
            cs some_call
    ]
