-- ===== src/Treasury/Registry/Membership.antt =====
-- The registry as a set of addresses: what `push_back` and the loop of `remove_market` do to membership
-- (contracts/treasury/src/lib.rs).
use vatix_contract.Prelude.{
  true, false, not, ◌&&◌, ◌||◌, ◌==◌, List, [], ◌∷◌, ◌++◌, contains, ◌≡◌, arith,
}
use vatix_contract.Treasury.Types.{Address}
use vatix_contract.Treasury.Registry.{without}

pub contains-append :
    (xs : List Address) (m a : Address) → contains (xs ++ m ∷ []) a ≡ (m == a || contains xs a)
contains-append [] m a = ground arith
contains-append (x ∷ xs) m a = ground (arith, contains-append xs m a)

-- A member that is already there adds nothing.
pub contains-member :
    (xs : List Address) (m a : Address)
    → contains xs m ≡ true
    → contains xs a ≡ (m == a || contains xs a)
contains-member xs m a h = ground arith

pub contains-without :
    (xs : List Address) (m a : Address)
    → contains (without m xs) a ≡ (not (m == a) && contains xs a)
contains-without [] m a = ground arith
contains-without (x ∷ xs) m a = ground (arith, contains-without xs m a)

-- An address that is no member is not missed.
pub contains-absent :
    (xs : List Address) (m a : Address)
    → contains xs m ≡ false
    → contains xs a ≡ (not (m == a) && contains xs a)
contains-absent xs m a h = ground arith
