-- ===== src/Prelude/Contract.antt =====
-- What a contract call may do: return, return an error of the contract, or trap. A call that does
-- not return is rolled back by the host, so only a return carries a new state.
use mathlib.Core.Bool.{Bool}
use mathlib.Core.Path.{◌≡◌, refl}
use mathlib.Core.Option.{Option, none, some}
use vatix_contract.Prelude.Tests.{if◌then◌else◌}

abbrev pub ⊤ : Type 0
⊤ = Unit

pub data Outcome (E A : Type 0) : Type 0 where
  ok : A → Outcome E A
  err : E → Outcome E A
  trap : Outcome E A

-- A call reads its environment `C` and changes the state `W`.
abbrev pub Call : Type 0 → Type 0 → Type 0 → Type 0 → Type 0
Call E C W A = C → W → Outcome E (A × W)

module _ {E C W A : Type 0} where
  abbrev pub pure : A → Call E C W A
  pure a c w = ok (a, w)

  abbrev pub throw : E → Call E C W A
  throw e c w = err e

  abbrev pub panic : Call E C W A
  panic c w = trap

  abbrev pub ask : (C → A) → Call E C W A
  ask f c w = ok (f c, w)

  abbrev pub gets : (W → A) → Call E C W A
  gets f c w = ok (f w, w)

  -- `.ok_or(e)?`
  abbrev pub ok_or : Option A → E → Call E C W A
  ok_or none e = throw e
  ok_or (some a) e = pure a

  -- `.expect(..)`, a plain operation that overflows, and a call of another contract that traps
  abbrev pub expect : Option A → Call E C W A
  expect none = panic
  expect (some a) = pure a

  -- `r?` for the result of another contract's call
  abbrev pub propagate : Outcome E A → Call E C W A
  propagate (ok a) = pure a
  propagate (err e) = throw e
  propagate trap = panic

infixl 5 ◌>>=◌ ◌>>◌
abbrev pub ◌>>=◌ : {E C W A B : Type 0} → Call E C W A → (A → Call E C W B) → Call E C W B
◌>>=◌ m f c w = elim (m c w) [ ok (a, w') ↦ f a c w' | err e ↦ err e | trap ↦ trap ]

abbrev pub ◌>>◌ : {E C W A B : Type 0} → Call E C W A → Call E C W B → Call E C W B
m >> k = m >>= λ _. k

module _ {E C W : Type 0} where
  abbrev pub modify : (W → W) → Call E C W ⊤
  modify f c w = ok (tt, f w)

  -- `if b { return Err(e); }`
  abbrev pub fail_if : Bool → E → Call E C W ⊤
  fail_if b e c w = if b then err e else ok (tt, w)

  abbrev pub trap_unless : Bool → Call E C W ⊤
  trap_unless b c w = if b then ok (tt, w) else trap

  abbrev pub when : Bool → Call E C W ⊤ → Call E C W ⊤
  when b m c w = if b then m c w else ok (tt, w)

-- A sequence that returns: its first part returned, and the rest returned from there.
module _ {E C W A B : Type 0} where
  abbrev pub Returned : Call E C W A → (A → Call E C W B) → C → W → B → W → Type 0
  Returned m f c w b w' = (a : A) × (w1 : W) × (m c w ≡ ok (a, w1)) × (f a c w1 ≡ ok (b, w'))

  pub >>=-eq-ok :
      (m : Call E C W A) (f : A → Call E C W B) (c : C) (w : W) (b : B) (w' : W)
      → (m >>= f) c w ≡ ok (b, w')
      → Returned m f c w b w'
  >>=-eq-ok m f c w b w' h = go (m c w) refl h
    where
      go :
          (r : Outcome E (A × W))
          → m c w ≡ r
          → (elim r [ ok (a, w1) ↦ f a c w1 | err e ↦ err e | trap ↦ trap ]) ≡ ok (b, w')
          → Returned m f c w b w'
      go (ok (a, w1)) e k = (a, w1, e, k)
      go (err x) e k = absurd (cc)
      go trap e k = absurd (cc)
