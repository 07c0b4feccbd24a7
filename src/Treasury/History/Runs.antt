-- ===== src/Treasury/History/Runs.antt =====
-- Induction over histories (contracts/treasury/src/lib.rs).
use vatix_contract.Prelude.{List, [], ◌∷◌, ⊤, Outcome, ok, err, trap, ◌≡◌, refl}
use vatix_contract.Treasury.Types.{TreasuryError}
use vatix_contract.Treasury.World.{Accessors, World, Env}
use vatix_contract.Treasury.History.{Request, exec, commit, step, run}

module _ {S Mode : Type 0} (access : Accessors S Mode) where
  -- Every call that returns keeps `P`.
  abbrev pub Keeps : (World S Mode → Type 0) → Type 0
  Keeps P =
      (q : Request Mode) (env : Env Mode) (w w' : World S Mode)
      → exec access q env w ≡ ok (tt, w')
      → P w
      → P w'

  step-Keeps :
      (P : World S Mode → Type 0)
      → Keeps P
      → (env : Env Mode) (q : Request Mode) (w : World S Mode) → P w
      → P (step access (env, q) w)
  unfolding step
  step-Keeps P keeps env q w h = go (exec access q env w) refl
    where
      go :
          (r : Outcome TreasuryError (⊤ × World S Mode))
          → exec access q env w ≡ r
          → P (commit access w r)
      go (ok (tt, w')) e = keeps q env w w' e h
      go (err x) e = h
      go trap e = h

  pub run-Keeps :
      (P : World S Mode → Type 0)
      → Keeps P
      → (cs : List (Env Mode × Request Mode)) (w : World S Mode) → P w
      → P (run access cs w)
  unfolding run
  run-Keeps P keeps [] w h = h
  run-Keeps P keeps ((env, q) ∷ cs) w h =
      run-Keeps P keeps cs (step access (env, q) w) (step-Keeps P keeps env q w h)
