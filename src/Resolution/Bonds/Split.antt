-- ===== src/Resolution/Bonds/Split.antt =====
-- The split of a forfeited bond (`split_bond` of contracts/resolution/src/lib.rs), and what the
-- payments do to the storage.
use vatix_contract.Prelude.{
  ℕ, ◌-◌, ◌*◌, ◌/◌, pos, ◌-ℤ◌, ◌*ℤ◌, ◌/ℤ◌, none, some, ◌≡◌, leb, i128_max, if◌then◌else◌, arith,
}
use vatix_contract.Resolution.Bonds.{split_amounts}

-- For a bond of n: half of it, a quarter of it and the rest, if 5000 n is an i128; a panic if not.
pub split_amounts_lem :
    (n : ℕ)
    → split_amounts (pos n) ≡ (
        if leb (n * 5000) i128_max
        then some (pos (n / 2), pos (n / 4), pos (n - n / 2 - n / 4))
        else none)
unfolding split_amounts ◌-ℤ◌ ◌*ℤ◌ ◌/ℤ◌
split_amounts_lem n = ground arith
