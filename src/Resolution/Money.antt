-- ===== src/Resolution/Money.antt =====
-- What the log says of the contract's own token balances: the specification side of the bonds.
use vatix_contract.Prelude.{ℕ, ◌+◌, pos_part, List, [], ◌∷◌, ◌&&◌, ◌==◌, if◌then◌else◌}
use vatix_contract.Resolution.Types.{Address, ChallengeRecord}
use vatix_contract.Resolution.World.{transfer, burn, invoke, publish, Log}

-- How much of a token has been moved to an address, and from it, since the log began.
abbrev pub received : Address → Address → Log → ℕ
received self t [] = 0
received self t (transfer token from to amount ∷ l) =
    (if token == t && to == self then pos_part amount else 0) + received self t l
received self t (burn token from amount ∷ l) = received self t l
received self t (invoke contract call ∷ l) = received self t l
received self t (publish e ∷ l) = received self t l

abbrev pub paid : Address → Address → Log → ℕ
paid self t [] = 0
paid self t (transfer token from to amount ∷ l) =
    (if token == t && from == self then pos_part amount else 0) + paid self t l
paid self t (burn token from amount ∷ l) =
    (if token == t && from == self then pos_part amount else 0) + paid self t l
paid self t (invoke contract call ∷ l) = paid self t l
paid self t (publish e ∷ l) = paid self t l

-- The bonds of a list of challengers together.
abbrev pub bond_sum : List ChallengeRecord → ℕ
bond_sum [] = 0
bond_sum (r ∷ rs) = pos_part r.bond + bond_sum rs

-- An amount of the token `token`, as seen by the holder of `t`.
abbrev pub in_token : Address → Address → ℕ → ℕ
in_token token t n = if token == t then n else 0
